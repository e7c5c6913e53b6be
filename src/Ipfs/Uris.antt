-- ===== src/Ipfs/Uris.antt =====
-- frontend/src/lib/pinata.ts: the text of a CID and its URI.
use Prim.Native.String.{[], ◌∷◌}
use stellar_urithi_bidz.Prelude.{
  String, true, Option, none, some, ◌≡◌, refl, ap, sym, ◌∙◌, arith, str_append, str_eq,
  if◌then◌else◌,
}
use stellar_urithi_bidz.Text.{strip_prefix, strip_prefix-append}
use stellar_urithi_bidz.Ipfs.{
  cid_to_ipfs_uri, extract_cid, ipfs_uri_to_gateway, matches_cid, is_valid_cid,
}

extract_cid-cid_to_ipfs_uri : (cid : String) → extract_cid (cid_to_ipfs_uri cid) ≡ cid
unfolding extract_cid cid_to_ipfs_uri
extract_cid-cid_to_ipfs_uri cid = rw (strip_prefix-append "ipfs://" cid, extract_cid) refl

cid_has_no_scheme : (cid : String) → matches_cid cid ≡ true → strip_prefix "ipfs://" cid ≡ none
unfolding matches_cid strip_prefix
cid_has_no_scheme [] h = refl
cid_has_no_scheme (c ∷ s) h = ground arith

extract_cid_bare : (cid : String) → matches_cid cid ≡ true → extract_cid cid ≡ cid
unfolding extract_cid
extract_cid_bare cid h = rw (cid_has_no_scheme cid h, extract_cid) refl

same_gateway :
    (default u v : String) (gateway : Option String)
    → extract_cid u ≡ extract_cid v
    → ipfs_uri_to_gateway default u gateway ≡ ipfs_uri_to_gateway default v gateway
unfolding ipfs_uri_to_gateway
same_gateway default u v none h = ap (λ cid. str_append default (str_append "/ipfs/" cid)) h
same_gateway default u v (some gateway) h =
    ap
      (λ cid. str_append (if str_eq gateway "" then default else gateway) (str_append "/ipfs/" cid))
      h

-- A bare CID and its URI are both valid, name the CID, and have one address at every gateway.
pub valid_cid_uri :
    (cid default : String) (gateway : Option String)
    → matches_cid cid ≡ true
    → (is_valid_cid cid ≡ true)
      × (is_valid_cid (cid_to_ipfs_uri cid) ≡ true)
      × (extract_cid cid ≡ cid)
      × (extract_cid (cid_to_ipfs_uri cid) ≡ cid)
      × (ipfs_uri_to_gateway default (cid_to_ipfs_uri cid) gateway
          ≡ ipfs_uri_to_gateway default cid gateway)
unfolding is_valid_cid
valid_cid_uri cid default gateway h =
    let bare : extract_cid cid ≡ cid = extract_cid_bare cid h in
    let round = extract_cid-cid_to_ipfs_uri cid in
    (
      ap matches_cid bare ∙ h,
      ap matches_cid round ∙ h,
      bare,
      round,
      same_gateway default (cid_to_ipfs_uri cid) cid gateway (round ∙ sym bare),
    )
