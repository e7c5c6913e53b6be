-- ===== src/CustodianPortal.antt =====
-- custodian-portal/src/app/page.tsx: the page on which a custodian attests physical items, with
-- `computeDocumentHash` of custodian-portal/src/lib/stellar.ts. A handler runs as one step, at whose
-- end the flag that it sets while it waits is cleared; that of an upload also exists in its
-- parts. What the wallet, the back end, the upload route, the file and SHA-256 answer are arguments.
pub mod Attest
pub mod Documents
pub mod Overlap
pub mod Upload
mod Tests
use stellar_urithi_bidz.Prelude.{
  ℕ, ◌-◌, ◌*◌, String, Bool, true, false, not, List, [], ◌∷◌, Option, none, some, str_eq,
  str_append, ltb, filter, ◌==◌, if◌then◌else◌, Result, fail, pass,
}
use stellar_urithi_bidz.Text.{contains, strip_prefix}
use stellar_urithi_bidz.Auth.{truthy}
use stellar_urithi_bidz.Values.{decimal}
use stellar_urithi_bidz.Invoke.{Arg, u64, address, bytes_n, Outside as Network, invoke_contract}
use stellar_urithi_bidz.Commitment.Hex.{hex_of}

pub record PendingAttestation : Type 0 where
  pub auction_id : ℕ
  pub seller : String
  pub metadata_uri : String
  pub item_description : String
  pub custodian_address : String
  pub created_at : String

pub record CompletedAttestation : Type 0 where
  pub auction_id : ℕ
  pub doc_hash_hex : String
  pub tx_hash : String
  pub timestamp : String

pub record UploadResult : Type 0 where
  pub cid : String
  pub ipfs_uri : String
  pub gateway_url : String

pub record DocHash : Type 0 where
  pub bytes : List ℕ
  pub hex : String

pub record File : Type 0 where
  pub name : String
  pub size : ℕ
  pub mime_type : String

pub record Page : Type 0 where
  pub wallet_address : Option String
  pub pending_attestations : List PendingAttestation
  pub completed_attestations : List CompletedAttestation
  pub loading : Bool
  pub attesting_id : Option ℕ
  pub uploaded_file : Option UploadResult
  pub doc_hash : Option DocHash
  pub uploading : Bool
  pub upload_preview : Option String
  pub file_name : Option String
  pub attestation_notes : String

abbrev pub first_page : Page
first_page = record {
  wallet_address = none;
  pending_attestations = [];
  completed_attestations = [];
  loading = true;
  attesting_id = none;
  uploaded_file = none;
  doc_hash = none;
  uploading = false;
  upload_preview = none;
  file_name = none;
  attestation_notes = "";
}

-- What a handler calls. A toast of success ends with the start of a hash, where there is one.
pub data Call : Type 0 where
  error : String → Call
  success : String → String → Call
  invoke : String → List Arg → String → Call

-- An exception: `none` is one that is no `Error`.
abbrev pub Exception : Type 0
Exception = Option String

abbrev pub message_or : String → Exception → String
message_or default none = default
message_or default (some message) = message

abbrev text_or : String → Option String → String
text_or default o = elim (truthy o) [ none ↦ default | some s ↦ s ]

-- `connectWallet`, on what `requestAccess` and `getAddress` give
unfoldable pub connect_wallet : Result Exception (Option String) → Page → Page × List Call
unfolding contains
connect_wallet (fail exception) page =
    let message = message_or "Connection failed" exception in
    if contains "not installed" message
    then (page, error "Please install Freighter wallet extension" ∷ [])
    else (page, error message ∷ [])
connect_wallet (pass given) page = elim (truthy given) [
  | none ↦ (page, [])
  | some a ↦
      (record page { wallet_address = some a }, success "Custodian wallet connected!" "" ∷ [])
]

-- A row of the back end, with the fields that the page reads.
pub record Item : Type 0 where
  pub id : ℕ
  pub seller : String
  pub metadata_uri : String
  pub custodian : Option String
  pub attested : Bool

-- The answer to the page's request: `json.success` and `json.data`, where that is an array.
pub data Fetched : Type 0 where
  thrown not_ok : Fetched
  ok : Bool → Option (List Item) → Fetched

abbrev wallet_or_empty : Page → String
wallet_or_empty page = text_or "" page.wallet_address

unfoldable pub pending_of : (ℕ → String) → ℕ → Page → List Item → List PendingAttestation
unfolding decimal
pending_of iso now page [] = []
pending_of iso now page (item ∷ items) =
    let rest = pending_of iso now page items in
    if item.attested
    then rest
    else record {
      auction_id = item.id;
      seller = item.seller;
      metadata_uri = item.metadata_uri;
      item_description = str_append "Physical Artifact #" (decimal item.id);
      custodian_address = text_or (wallet_or_empty page) item.custodian;
      created_at = iso now;
    }
      ∷ rest

-- The two items that the page shows in place of none.
unfoldable pub fallback_attestations : (ℕ → String) → ℕ → Page → List PendingAttestation
fallback_attestations iso now page =
    record {
      auction_id = 101;
      seller = "GD4S...7X2K";
      metadata_uri = "ipfs://bafybeigdyrzt5sfp7udm7hu76uh7y26nf3efuylqabf3oclgtqy55fbzdi";
      item_description = "Yoruba beaded ceremonial crown, early 20th century";
      custodian_address = wallet_or_empty page;
      created_at = iso (now - 7200000);
    }
    ∷ record {
      auction_id = 102;
      seller = "GBRP...9L3M";
      metadata_uri = "ipfs://bafkreid7mbx6qzcqnwzb4zqhdnk37w7usy3a3kpxqqo3ow33eypvar7q";
      item_description = "Makonde carved ebony sculpture 'Tree of Life'";
      custodian_address = wallet_or_empty page;
      created_at = iso (now - 18000000);
    }
    ∷ []

abbrev or_fallback : List PendingAttestation → List PendingAttestation → List PendingAttestation
or_fallback fallback [] = fallback
or_fallback fallback (p ∷ ps) = p ∷ ps

-- `fetchPendingAttestations`; `iso` is `toISOString` of a time.
unfoldable pub fetch_pending_attestations : (ℕ → String) → ℕ → Fetched → Page → Page × List Call
unfolding pending_of fallback_attestations
fetch_pending_attestations iso now thrown page =
    (record page { loading = false }, error "Failed to load live pending physical items" ∷ [])
fetch_pending_attestations iso now not_ok page =
    (record page { pending_attestations = fallback_attestations iso now page; loading = false }, [])
fetch_pending_attestations iso now (ok good items) page =
    let mapped : List PendingAttestation = elim items [
      | none ↦ []
      | some rows ↦ pending_of iso now page rows
    ] in
    (
      record page {
        pending_attestations =
            or_fallback (fallback_attestations iso now page) (if good then mapped else []);
        loading = false;
      },
      [],
    )
