-- ===== src/Upload/Minute.antt =====
-- frontend/src/app/api/ipfs/upload/route.ts: how many uploads of one address pass in any minute of
-- a history from the server's start.
use stellar_urithi_bidz.Prelude.{
  ℕ, ◌≤◌, ◌<◌, ◌+◌, String, List, [], ◌∷◌, Option, none, some, ◌≡◌, refl, arith, inl, inr,
  Bool-cases, Option-cases, StrMap, empty, insert, ltb, str_eq,
}
use stellar_urithi_bidz.Upload.{
  Hit, Hits, set_hit, count_hit, clean, admit_ip, rate_limit_window_ms,
}
use stellar_urithi_bidz.Upload.Limiter.{
  ideal_answers, answers, live, Agrees, Agrees-later, Agrees-start, set_hit-Agrees,
  count_hit-Agrees, answers-Agrees,
}
use stellar_urithi_bidz.Upload.Window.{
  passed, after, IsBetween, IsBetween-IsOrdered, new_window, two_windows,
}

abbrev IsCounted : Option Hit → Type 0
IsCounted none = Unit
IsCounted (some hit) = hit.count ≤ 30

count_hit-IsCounted :
    (t : ℕ) (o : Option Hit) {hit : Hit} → IsCounted o → count_hit t o ≡ some hit → hit.count ≤ 30
unfolding count_hit
count_hit-IsCounted t none c counted = ground arith
count_hit-IsCounted t (some old) c counted = ground arith

insert-IsCounted :
    (j : String) (hit : Hit) (m : StrMap Hit)
    → ((ip : String) → IsCounted (m ip))
    → hit.count ≤ 30
    → (ip : String) → IsCounted (insert j hit m ip)
insert-IsCounted j hit m all few ip = elim (Bool-cases (str_eq j ip)) [
  | inl same ↦ rw same few
  | inr other ↦ rw other (all ip)
]

-- A map that is never cleaned, as a history leaves it.
after-Agrees :
    (now : ℕ) (hits : Hits) (m : StrMap Hit) (before : List (String × ℕ)) (a : ℕ)
    → Agrees now hits m
    → ((ip : String) → IsCounted (m ip))
    → IsBetween now before a
    → (m' : StrMap Hit) × Agrees a (after hits before) m' × ((ip : String) → IsCounted (m' ip))
unfolding after admit_ip
after-Agrees now hits m [] a agrees all b = (m, Agrees-later now a hits m b agrees, all)
after-Agrees now hits m ((ip, t) ∷ rest) a agrees all (later, b) =
    let at_t = Agrees-later now t hits m later agrees in
    let same = count_hit-Agrees t hits m ip at_t in
    elim (Option-cases (count_hit t (m ip))) [
      | inl refused ↦ rw (same, refused, after, admit_ip) (after-Agrees t hits m rest a at_t all b)
      | inr (hit, counted) ↦
          rw (same, counted, after, admit_ip)
            (after-Agrees t (clean t (set_hit ip hit hits)) (insert ip hit m) rest a
              (set_hit-Agrees now t hits m ip hit later agrees)
              (insert-IsCounted ip hit m all (count_hit-IsCounted t (m ip) (all ip) counted)) b)
    ]

in_span :
    (ip : String) (m : StrMap Hit) (from : ℕ) (requests : List (String × ℕ)) (to : ℕ)
    → IsCounted (m ip)
    → IsBetween from requests to
    → to < from + rate_limit_window_ms
    → passed ip requests (ideal_answers m requests) ≤ 60
in_span ip m from requests to c b short = elim (Option-cases (m ip)) [
  | inl none_yet ↦
      let dead : live from (m ip) ≡ none = rw none_yet refl in
      omega (arith, new_window ip m from requests to dead b short)
  | inr (hit, found) ↦ elim (Bool-cases (ltb from hit.reset)) [
    | inl counts ↦
        let few : hit.count ≤ 30 = ground (arith, found, c) in
        omega
          (arith, two_windows ip m hit from requests to found few b (ground (arith, counts, short)))
    | inr over ↦
        let dead : live from (m ip) ≡ none = rw found (rw over refl) in
        omega (arith, new_window ip m from requests to dead b short)
  ]
]

-- From the server's start, on a clock that does not go back: of the requests of any minute, at most
-- 60 of one address pass the limiter.
pub sixty_a_minute :
    (ip : String) (before : List (String × ℕ)) (from : ℕ) (requests : List (String × ℕ)) (to : ℕ)
    → IsBetween 0 before from
    → IsBetween from requests to
    → to < from + rate_limit_window_ms
    → passed ip requests (answers (after [] before) requests) ≤ 60
sixty_a_minute ip before from requests to b0 b short =
    let (m, agrees, all) = after-Agrees 0 [] empty before from Agrees-start (λ j. tt) b0 in
    rw
      (answers-Agrees from (after [] before) m requests agrees
        (IsBetween-IsOrdered from requests to b))
      (in_span ip m from requests to (all ip) b short)
