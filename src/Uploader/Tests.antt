-- ===== src/Uploader/Tests.antt =====
-- frontend/src/components/ui/IPFSUploader.tsx: a metadata form.
use stellar_urithi_bidz.Prelude.{none, some, ◌≡◌, refl}
use stellar_urithi_bidz.Text.{leading_number}
use stellar_urithi_bidz.Uploader.{Meta, AuctionMetadata, metadata_of}

abbrev form : Meta
form = record {
  name = "Mask";
  description = "";
  artist = "";
  year = "about 1950";
  medium = "wood";
  dimensions = "";
  provenance = "";
}

abbrev described : AuctionMetadata
described = record {
  name = "Mask";
  description = "Mask — listed on UrithiBidz";
  image = "";
  artist = none;
  year = some none;
  medium = some "wood";
  dimensions = none;
  provenance = none;
}

-- A year that does not begin with digits is sent as NaN.
form_described : metadata_of none form ≡ described
unfolding metadata_of leading_number
form_described = refl
