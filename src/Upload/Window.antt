-- ===== src/Upload/Window.antt =====
-- frontend/src/app/api/ipfs/upload/route.ts: how many uploads of one address pass in a minute.
use stellar_urithi_bidz.Prelude.{
  ℕ, suc, ◌+◌, ◌≤◌, ◌<◌, String, Bool, true, false, ◌&&◌, List, [], ◌∷◌, Option, none, some, ◌≡◌,
  ◌≢◌, refl, sym, ap, ◌∙◌, ◌⊎◌, arith, inl, inr, Bool-cases, Option-cases, StrMap, ltb, str_eq,
  eq_iff, if◌then◌else◌,
}
use stellar_urithi_bidz.Upload.{Hit, Hits, count_hit, admit_ip, rate_limit_window_ms}
use stellar_urithi_bidz.Upload.Limiter.{ideal_admit_ip, ideal_answers, IsOrdered, live}

-- How many requests of `ip` were let through.
unfoldable pub passed : String → List (String × ℕ) → List Bool → ℕ
passed ip ((j, t) ∷ requests) (b ∷ bs) =
    let rest = passed ip requests bs in if str_eq j ip && b then suc rest else rest
passed ip _ _ = 0

-- `ipHits` after a history.
unfoldable pub after : Hits → List (String × ℕ) → Hits
unfolding admit_ip
after hits [] = hits
after hits ((ip, t) ∷ requests) = after (admit_ip ip t hits).0 requests

-- The calls are in order of time, none earlier than `from` and none later than `to`.
abbrev pub IsBetween : ℕ → List (String × ℕ) → ℕ → Type 0
IsBetween from [] to = from ≤ to
IsBetween from ((ip, t) ∷ requests) to = (from ≤ t) × IsBetween t requests to

pub IsBetween-IsOrdered :
    (from : ℕ) (requests : List (String × ℕ)) (to : ℕ)
    → IsBetween from requests to
    → IsOrdered from requests
IsBetween-IsOrdered from [] to b = tt
IsBetween-IsOrdered from ((ip, t) ∷ requests) to (later, b) =
    (later, IsBetween-IsOrdered t requests to b)

IsBetween-le :
    (from : ℕ) (requests : List (String × ℕ)) (to : ℕ) → IsBetween from requests to → from ≤ to
IsBetween-le from [] to b = b
IsBetween-le from ((ip, t) ∷ requests) to (later, b) =
    omega (arith, IsBetween-le t requests to b, later)

-- A request leaves the entry of another address alone.
ideal_admit_ip-other :
    (j ip : String) (t : ℕ) (m : StrMap Hit)
    → str_eq j ip ≡ false
    → (ideal_admit_ip j t m).0 ip ≡ m ip
ideal_admit_ip-other j ip t m other = elim (Option-cases (count_hit t (m j))) [
  | inl refused ↦ rw (refused, ideal_admit_ip) refl
  | inr (hit, counted) ↦ rw (counted, ideal_admit_ip) (rw other refl)
]

-- A request of the address is refused and changes nothing, or passes and is counted.
ideal_admit_ip-own :
    (j ip : String) (t : ℕ) (m : StrMap Hit)
    → str_eq j ip ≡ true
    → ((count_hit t (m ip) ≡ none) × (ideal_admit_ip j t m ≡ (m, false)))
      ⊎ ((hit : Hit) × (count_hit t (m ip) ≡ some hit)
          × ((ideal_admit_ip j t m).1 ≡ true)
          × ((ideal_admit_ip j t m).0 ip ≡ some hit))
ideal_admit_ip-own j ip t m own =
    let same : m ip ≡ m j = ap m (sym ((eq_iff j ip).0 own)) in
    elim (Option-cases (count_hit t (m j))) [
      | inl refused ↦ inl (rw same refused, rw (refused, ideal_admit_ip) refl)
      | inr (hit, counted) ↦ inr (
        hit,
        rw same counted,
        rw (counted, ideal_admit_ip) refl,
        rw (counted, ideal_admit_ip) (rw own refl),
      )
    ]

pub passed-nil : (ip : String) (bs : List Bool) → passed ip [] bs ≡ 0
unfolding passed
passed-nil ip bs = refl

passed-step :
    (ip j : String) (t : ℕ) (m : StrMap Hit) (rest : List (String × ℕ))
    → passed ip ((j, t) ∷ rest) (ideal_answers m ((j, t) ∷ rest)) ≡ (
        if str_eq j ip && (ideal_admit_ip j t m).1
        then suc (passed ip rest (ideal_answers (ideal_admit_ip j t m).0 rest))
        else passed ip rest (ideal_answers (ideal_admit_ip j t m).0 rest))
unfolding passed ideal_answers
passed-step ip j t m rest = refl

-- While an entry counts, it and the requests let through are at most 30.
in_one_window :
    (ip : String) (m : StrMap Hit) (hit : Hit) (from : ℕ) (requests : List (String × ℕ)) (to : ℕ)
    → m ip ≡ some hit
    → hit.count ≤ 30
    → IsBetween from requests to
    → to < hit.reset
    → passed ip requests (ideal_answers m requests) + hit.count ≤ 30
unfolding count_hit
in_one_window ip m hit from [] to found few b inside =
    ground (arith, passed-nil ip (ideal_answers m []))
in_one_window ip m hit from ((j, t) ∷ rest) to found few (later, b) inside =
    let before_to = IsBetween-le t rest to b in
    rw (passed-step ip j t m rest) (elim (Bool-cases (str_eq j ip)) [
      | inr other ↦ rw other (
          in_one_window ip (ideal_admit_ip j t m).0 hit t rest to
            (ideal_admit_ip-other j ip t m other ∙ found) few b inside)
      | inl own ↦ elim (ideal_admit_ip-own j ip t m own) [
        | inl (refused, same) ↦
            let m' = (ideal_admit_ip j t m).0 in
            let found' : m' ip ≡ some hit = ap (λ r. r.0 ip) same ∙ found in
            let passes = in_one_window ip m' hit t rest to found' few b inside in
            let stays : (ideal_admit_ip j t m).1 ≡ false = ap (λ r. r.1) same in
            rw (own, stays) passes
        | inr (hit', counted, admitted, stored) ↦
            let m' = (ideal_admit_ip j t m).0 in
            let more : (hit'.count ≡ suc hit.count) × (hit'.reset ≡ hit.reset) × (hit'.count ≤ 30) =
              ground (arith, found, counted, before_to) in
            let passes =
              in_one_window ip m' hit' t rest to stored more.2 b (omega (arith, more.1, inside)) in
            rw (own, admitted) (omega (arith, passes, more.0))
      ]
    ])

live_later : (from t : ℕ) (o : Option Hit) → from ≤ t → live from o ≡ none → live t o ≡ none
live_later from t none later dead = refl
live_later from t (some hit) later dead = ground arith

-- A request whose entry does not count starts a new one.
dead_counts : (t : ℕ) (o : Option Hit) → live t o ≡ none → count_hit t o ≢ none
unfolding count_hit
dead_counts t none dead = λ h. absurd cc
dead_counts t (some hit) dead = λ h. absurd (ground arith)

dead_count :
    (t : ℕ) (o : Option Hit) {hit : Hit}
    → live t o ≡ none
    → count_hit t o ≡ some hit
    → (hit.count ≡ 1) × (hit.reset ≡ t + rate_limit_window_ms)
unfolding count_hit
dead_count t none dead counted = ground arith
dead_count t (some old) dead counted = ground arith

-- Once its entry no longer counts, at most 30 requests pass before one window more is over.
pub new_window :
    (ip : String) (m : StrMap Hit) (from : ℕ) (requests : List (String × ℕ)) (to : ℕ)
    → live from (m ip) ≡ none
    → IsBetween from requests to
    → to < from + rate_limit_window_ms
    → passed ip requests (ideal_answers m requests) ≤ 30
unfolding count_hit
new_window ip m from [] to dead b short = ground (arith, passed-nil ip (ideal_answers m []))
new_window ip m from ((j, t) ∷ rest) to dead (later, b) short =
    let m' = (ideal_admit_ip j t m).0 in
    let soon : to < t + rate_limit_window_ms = omega (arith, short, later) in
    rw (passed-step ip j t m rest) (elim (Bool-cases (str_eq j ip)) [
      | inr other ↦
          let still : live t (m' ip) ≡ none =
            rw (ideal_admit_ip-other j ip t m other) (live_later from t (m ip) later dead) in
          rw other (new_window ip m' t rest to still b soon)
      | inl own ↦ elim (ideal_admit_ip-own j ip t m own) [
        | inl (refused, same) ↦
            absurd (dead_counts t (m ip) (live_later from t (m ip) later dead) refused)
        | inr (hit, counted, admitted, stored) ↦
            let first = dead_count t (m ip) (live_later from t (m ip) later dead) counted in
            let passes =
              in_one_window ip m' hit t rest to stored (omega (arith, first.0)) b
                (omega (arith, first.1, soon)) in
            rw (own, admitted) (omega (arith, passes, first.0))
      ]
    ])

-- With its entry in count, at most 60 less what is counted pass before one window more is over.
pub two_windows :
    (ip : String) (m : StrMap Hit) (hit : Hit) (from : ℕ) (requests : List (String × ℕ)) (to : ℕ)
    → m ip ≡ some hit
    → hit.count ≤ 30
    → IsBetween from requests to
    → to < hit.reset + rate_limit_window_ms
    → passed ip requests (ideal_answers m requests) + hit.count ≤ 60
unfolding count_hit
two_windows ip m hit from [] to found few b short =
    ground (arith, passed-nil ip (ideal_answers m []))
two_windows ip m hit from ((j, t) ∷ rest) to found few (later, b) short =
    elim (Bool-cases (ltb t hit.reset)) [
      | inr over ↦
          let dead : live t (m ip) ≡ none = rw found (rw over refl) in
          let passes =
            new_window ip m t ((j, t) ∷ rest) to dead (omega arith, b)
              (ground (arith, over, short)) in
          omega (arith, passes, few)
      | inl counts ↦
          let m' = (ideal_admit_ip j t m).0 in
          rw (passed-step ip j t m rest) (elim (Bool-cases (str_eq j ip)) [
            | inr other ↦ rw other (
                two_windows ip m' hit t rest to (ideal_admit_ip-other j ip t m other ∙ found) few b
                  short)
            | inl own ↦ elim (ideal_admit_ip-own j ip t m own) [
              | inl (refused, same) ↦
                  let found' : m' ip ≡ some hit = ap (λ r. r.0 ip) same ∙ found in
                  let passes = two_windows ip m' hit t rest to found' few b short in
                  let stays : (ideal_admit_ip j t m).1 ≡ false = ap (λ r. r.1) same in
                  rw (own, stays) passes
              | inr (hit', counted, admitted, stored) ↦
                  let more : (hit'.count ≡ suc hit.count)
                      × (hit'.reset ≡ hit.reset)
                      × (hit'.count ≤ 30) =
                    ground (arith, found, counted, counts) in
                  let passes =
                    two_windows ip m' hit' t rest to stored more.2 b
                      (omega (arith, more.1, short)) in
                  rw (own, admitted) (omega (arith, passes, more.0))
            ]
          ])
    ]
