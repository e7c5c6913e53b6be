-- ===== src/Ipfs/Tests.antt =====
-- frontend/src/lib/pinata.ts: concrete CIDs.
use stellar_urithi_bidz.Prelude.{true, false, none, String, ◌≡◌, refl}
use stellar_urithi_bidz.Text.{strip_prefix}
use stellar_urithi_bidz.Ipfs.{
  cid_to_ipfs_uri, extract_cid, ipfs_uri_to_gateway, matches_cid, is_valid_cid, exactly, at_least,
}
use stellar_urithi_bidz.Ipfs.Uris.{valid_cid_uri}

abbrev cid : String
cid = "bafybeihgxdzljxb26q6nf3r3eifqeedsvt2eubqtskghpme66cgjyw4fra"

cid_matches : matches_cid cid ≡ true
unfolding matches_cid strip_prefix exactly at_least
cid_matches = refl

valid_cid_uri_run :
    (is_valid_cid cid ≡ true)
    × (is_valid_cid (cid_to_ipfs_uri cid) ≡ true)
    × (extract_cid cid ≡ cid)
    × (extract_cid (cid_to_ipfs_uri cid) ≡ cid)
    × (ipfs_uri_to_gateway "https://g" (cid_to_ipfs_uri cid) none
        ≡ ipfs_uri_to_gateway "https://g" cid none)
valid_cid_uri_run = valid_cid_uri cid "https://g" none cid_matches

old_cid : is_valid_cid "ipfs://QmYwAPJzv5CZsnA625s3Xf2nemtYgPpHdWEz79ojWnPbdG" ≡ true
unfolding is_valid_cid matches_cid extract_cid strip_prefix exactly at_least
old_cid = refl

short_cid : is_valid_cid "bafy" ≡ false
unfolding is_valid_cid matches_cid extract_cid strip_prefix exactly at_least
short_cid = refl
