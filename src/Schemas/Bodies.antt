-- ===== src/Schemas/Bodies.antt =====
-- backend/src/schemas/auctions.ts: which bids the schema accepts.
use stellar_urithi_bidz.Prelude.{
  ℕ, ◌<◌, String, true, some, some-injective, ◌≡◌, ◌↔◌, refl, ap, sym, ◌∙◌,
}
use stellar_urithi_bidz.Text.{parse_digits}
use stellar_urithi_bidz.Values.{Value}
use stellar_urithi_bidz.Upload.{includes}
use stellar_urithi_bidz.Schemas.{auction_formats, place_bid_body_schema}
use stellar_urithi_bidz.Schemas.Builders.{Body, Zod, IsZod, no_fields, put}
use stellar_urithi_bidz.Schemas.Texts.{starts}
use stellar_urithi_bidz.Schemas.Fields.{
  is_positive_iff, address_lem, amount_lem, keeps, kept_as, field_iff,
}

-- What makes a body a bid
pub record IsBid (body : Body) : Type 0 where
  pub bidder : String
  pub amount : String
  pub format : String
  pub stroops : ℕ
  pub named : body "bidder" ≡ Value.text bidder
  pub key : starts b'G' bidder ≡ true
  pub priced : body "bid_amount" ≡ Value.text amount
  pub spelled : parse_digits amount ≡ some stroops
  pub above : 0 < stroops
  pub sorted : body "format" ≡ Value.text format
  pub known : includes auction_formats format ≡ true

abbrev bid_fields_of : Value → Value → Value → Body → Body
bid_fields_of bidder amount format rest =
    put "bidder" bidder (put "bid_amount" amount (put "format" format rest))

abbrev pub bid_fields : Body → Body
bid_fields body = bid_fields_of (body "bidder") (body "bid_amount") (body "format") no_fields

module _ {Schema : Type 0} (zod : Zod Schema) (is_zod : IsZod zod) where
  accepted :
      (body parsed : Body)
      → zod.parse_object (place_bid_body_schema zod) body ≡ some parsed
      → IsBid body × (bid_fields body ≡ parsed)
  accepted body parsed h =
      let (b, p1, h1, k1, e1) = (field_iff zod is_zod "bidder" _ _ body parsed).0 h in
      let (a, p2, h2, k2, e2) = (field_iff zod is_zod "bid_amount" _ _ body p1).0 k1 in
      let (f, p3, h3, k3, e3) = (field_iff zod is_zod "format" _ _ body p2).0 k2 in
      let (bidder, named, key, b_same) =
        keeps zod is_zod _ _ (address_lem zod is_zod) (body "bidder") b h1 in
      let (amount, priced, positive, a_same) =
        keeps zod is_zod _ _ (amount_lem zod is_zod) (body "bid_amount") a h2 in
      let (format, sorted, known, f_same) =
        keeps zod is_zod _ _ (is_zod.enum_law auction_formats) (body "format") f h3 in
      let (stroops, spelled, above) = (is_positive_iff amount).0 positive in
      let empty = some-injective (sym (is_zod.object_empty body) ∙ k3) in
      (
        record {
          bidder = bidder;
          amount = amount;
          format = format;
          stroops = stroops;
          named = named;
          key = key;
          priced = priced;
          spelled = spelled;
          above = above;
          sorted = sorted;
          known = known;
        },
        ap (λ v. bid_fields_of v (body "bid_amount") (body "format") no_fields) (sym b_same)
            ∙ ap (λ v. bid_fields_of b v (body "format") no_fields) (sym a_same)
            ∙ ap (λ v. bid_fields_of b a v no_fields) (sym f_same)
            ∙ ap (bid_fields_of b a f) empty
            ∙ ap (λ q. put "bidder" b (put "bid_amount" a q)) e3
            ∙ ap (put "bidder" b) e2
            ∙ e1,
      )

  kept :
      (body parsed : Body)
      → IsBid body
      → bid_fields body ≡ parsed
      → zod.parse_object (place_bid_body_schema zod) body ≡ some parsed
  kept body parsed bid same = (field_iff zod is_zod "bidder" _ _ body parsed).1 (
    body "bidder",
    _,
    kept_as zod is_zod _ _ (address_lem zod is_zod) (body "bidder") bid.bidder bid.named bid.key,
    (field_iff zod is_zod "bid_amount" _ _ body _).1 (
      body "bid_amount",
      _,
      kept_as zod is_zod _ _ (amount_lem zod is_zod) (body "bid_amount") bid.amount bid.priced
          ((is_positive_iff bid.amount).1 (bid.stroops, bid.spelled, bid.above)),
      (field_iff zod is_zod "format" _ _ body _).1 (
        body "format",
        no_fields,
        kept_as zod is_zod _ _ (is_zod.enum_law auction_formats) (body "format") bid.format
            bid.sorted bid.known,
        is_zod.object_empty body,
        refl,
      ),
      refl,
    ),
    same,
  )

  -- A body is accepted as a bid exactly if its bidder is a text that is a public key, its amount a text
  -- of digits that spell a number above 0, and its format one of the three; what the handler gets of it
  -- are these three fields as they are.
  pub parses_iff :
      (body parsed : Body)
      → (zod.parse_object (place_bid_body_schema zod) body ≡ some parsed)
        ↔ (IsBid body × (bid_fields body ≡ parsed))
  parses_iff body parsed = (accepted body parsed, λ (bid, same). kept body parsed bid same)
