-- ===== src/Upload/Limiter.antt =====
-- frontend/src/app/api/ipfs/upload/route.ts: the fixed-window limiter over histories of requests.
use stellar_urithi_bidz.Prelude.{
  ℕ, ◌≤◌, String, Bool, true, false, List, [], ◌∷◌, Option, none, some, ◌≡◌, refl, ap, ◌∙◌, length,
  arith, inl, inr, Bool-cases, Option-cases, StrMap, empty, insert, filter, ltb, str_eq, eq_iff,
  if◌then◌else◌,
}
use stellar_urithi_bidz.Upload.{Hit, Hits, get_hit, set_hit, count_hit, not_over, clean, admit_ip}

-- The map as it would be if nothing were ever cleaned up.
abbrev pub ideal_admit_ip : String → ℕ → StrMap Hit → StrMap Hit × Bool
ideal_admit_ip ip now m = elim (count_hit now (m ip)) [
  | none ↦ (m, false)
  | some hit ↦ (insert ip hit m, true)
]

-- The answers to a history of requests, each an address and the time of the call.
unfoldable pub answers : Hits → List (String × ℕ) → List Bool
unfolding admit_ip
answers hits [] = []
answers hits ((ip, now) ∷ rest) =
    let (hits', admitted) = admit_ip ip now hits in admitted ∷ answers hits' rest

unfoldable pub ideal_answers : StrMap Hit → List (String × ℕ) → List Bool
ideal_answers m [] = []
ideal_answers m ((ip, now) ∷ rest) =
    let (m', admitted) = ideal_admit_ip ip now m in admitted ∷ ideal_answers m' rest

-- The clock does not go back, and starts no earlier than `now`.
abbrev pub IsOrdered : ℕ → List (String × ℕ) → Type 0
IsOrdered now [] = Unit
IsOrdered now ((ip, t) ∷ rest) = (now ≤ t) × IsOrdered t rest

-- What of an entry counts at a time.
abbrev pub live : ℕ → Option Hit → Option Hit
live now none = none
live now (some hit) = if ltb now hit.reset then some hit else none

abbrev pub Unique : Hits → Type 0
Unique [] = Unit
Unique ((key, hit) ∷ hits) = (get_hit key hits ≡ none) × Unique hits

get_hit-set_hit :
    (ip : String) (hit : Hit) (hits : Hits) (j : String)
    → get_hit j (set_hit ip hit hits) ≡ (if str_eq ip j then some hit else get_hit j hits)
unfolding get_hit set_hit
get_hit-set_hit ip hit [] j = refl
get_hit-set_hit ip hit ((key, old) ∷ hits) j =
    ground (arith, get_hit-set_hit ip hit hits j, eq_iff key ip, eq_iff key j, eq_iff ip j)

Unique-set_hit :
    (ip : String) (hit : Hit) (hits : Hits) → Unique hits → Unique (set_hit ip hit hits)
unfolding get_hit set_hit
Unique-set_hit ip hit [] u = (refl, tt)
Unique-set_hit ip hit ((key, old) ∷ hits) (fresh, u) = elim (Bool-cases (str_eq key ip)) [
  | inl same ↦ rw same (fresh, u)
  | inr other ↦ rw other (
    ground (arith, get_hit-set_hit ip hit hits key, eq_iff key ip, eq_iff ip key, fresh),
    Unique-set_hit ip hit hits u,
  )
]

get_hit-filter-none :
    (now : ℕ) (hits : Hits) (j : String)
    → get_hit j hits ≡ none
    → get_hit j (filter (not_over now) hits) ≡ none
unfolding get_hit
get_hit-filter-none now [] j h = refl
get_hit-filter-none now ((key, hit) ∷ hits) j h = ground (arith, get_hit-filter-none now hits j)

Unique-filter : (now : ℕ) (hits : Hits) → Unique hits → Unique (filter (not_over now) hits)
unfolding get_hit
Unique-filter now [] u = tt
Unique-filter now ((key, hit) ∷ hits) (fresh, u) = elim (Bool-cases (ltb hit.reset now)) [
  | inl over ↦ rw over (Unique-filter now hits u)
  | inr kept ↦ rw kept (get_hit-filter-none now hits key fresh, Unique-filter now hits u)
]

live-filter :
    (now t : ℕ) (hits : Hits) (j : String)
    → Unique hits
    → now ≤ t
    → live t (get_hit j (filter (not_over now) hits)) ≡ live t (get_hit j hits)
unfolding get_hit
live-filter now t [] j u later = refl
live-filter now t ((key, hit) ∷ hits) j (fresh, u) later =
    ground (
      arith,
      live-filter now t hits j u later,
      eq_iff key j,
      get_hit-filter-none now hits key fresh,
    )

count_hit-live : (now : ℕ) (o : Option Hit) → count_hit now o ≡ count_hit now (live now o)
unfolding count_hit
count_hit-live now none = refl
count_hit-live now (some hit) = ground arith

-- The two maps agree on what counts from `now` on.
pub record Agrees (now : ℕ) (hits : Hits) (m : StrMap Hit) : Type 0 where
  pub unique : Unique hits
  pub agree : (t : ℕ) (j : String) → now ≤ t → live t (get_hit j hits) ≡ live t (m j)

pub Agrees-later :
    (now t : ℕ) (hits : Hits) (m : StrMap Hit) → now ≤ t → Agrees now hits m → Agrees t hits m
Agrees-later now t hits m later a = record {
  unique = a.unique;
  agree = λ s j s_later. a.agree s j (omega (arith, later, s_later));
}

pub Agrees-start : Agrees 0 [] empty
unfolding get_hit
Agrees-start = record { unique = tt; agree = λ t j later. refl }

pub count_hit-Agrees :
    (now : ℕ) (hits : Hits) (m : StrMap Hit) (ip : String)
    → Agrees now hits m
    → count_hit now (get_hit ip hits) ≡ count_hit now (m ip)
count_hit-Agrees now hits m ip a = cc (
  count_hit-live now (get_hit ip hits),
  count_hit-live now (m ip),
  ap (count_hit now) (a.agree now ip (omega arith)),
)

insert-agree :
    (now t : ℕ) (hits : Hits) (m : StrMap Hit) (ip : String) (hit : Hit)
    → now ≤ t
    → Agrees now hits m
    → (s : ℕ) (j : String) → t ≤ s
    → live s (get_hit j (set_hit ip hit hits)) ≡ live s (insert ip hit m j)
insert-agree now t hits m ip hit later a s j s_later =
    ground (arith, get_hit-set_hit ip hit hits j, a.agree s j (omega (arith, later, s_later)))

pub set_hit-Agrees :
    (now t : ℕ) (hits : Hits) (m : StrMap Hit) (ip : String) (hit : Hit)
    → now ≤ t
    → Agrees now hits m
    → Agrees t (clean t (set_hit ip hit hits)) (insert ip hit m)
unfolding clean
set_hit-Agrees now t hits m ip hit later a =
    let unique = Unique-set_hit ip hit hits a.unique in
    let agree = insert-agree now t hits m ip hit later a in
    elim (Bool-cases (ltb 1000 (length (set_hit ip hit hits)))) [
      | inl full ↦ rw full (record {
        unique = Unique-filter t (set_hit ip hit hits) unique;
        agree = λ s j s_later.
            live-filter t s (set_hit ip hit hits) j unique s_later ∙ agree s j s_later;
      })
      | inr few ↦ rw few (record { unique = unique; agree = agree })
    ]

pub answers-Agrees :
    (now : ℕ) (hits : Hits) (m : StrMap Hit) (requests : List (String × ℕ))
    → Agrees now hits m
    → IsOrdered now requests
    → answers hits requests ≡ ideal_answers m requests
unfolding answers ideal_answers admit_ip
answers-Agrees now hits m [] a ordered = refl
answers-Agrees now hits m ((ip, t) ∷ rest) a (later, ordered) =
    let at_t = Agrees-later now t hits m later a in
    let same = count_hit-Agrees t hits m ip at_t in
    elim (Option-cases (count_hit t (m ip))) [
      | inl refused ↦
          rw (same, refused, answers, ideal_answers, admit_ip, ideal_admit_ip)
            (ap (λ bs. false ∷ bs) (answers-Agrees t hits m rest at_t ordered))
      | inr (hit, counted) ↦
          rw (same, counted, answers, ideal_answers, admit_ip, ideal_admit_ip)
            (ap (λ bs. true ∷ bs)
              (answers-Agrees t (clean t (set_hit ip hit hits)) (insert ip hit m) rest
                (set_hit-Agrees now t hits m ip hit later a) ordered))
    ]

-- Whatever the clean-ups delete, and whenever they run: on a clock that does not go back, every
-- request is answered as if nothing were ever deleted.
pub clean_unseen :
    (requests : List (String × ℕ))
    → IsOrdered 0 requests
    → answers [] requests ≡ ideal_answers empty requests
clean_unseen requests ordered = answers-Agrees 0 [] empty requests Agrees-start ordered
