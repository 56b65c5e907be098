-- ===== src/Ovh/Pacing/Sending.antt =====
-- internal/ovh/api.go: how often a call is sent.
use keymaker.Prelude.{
  ℕ, zero, suc, ◌+◌, ◌≤◌, ◌<◌, Bool, true, false, Option, ◌≡◌, ◌≢◌, ◌⊎◌, inl, inr, refl, ap, ◌∙◌,
  arith, ◌==◌, nat_equality, Bool-cases, eq_of, ne_of, not, ◌||◌, sym, ltb, if◌then◌else◌,
}
use keymaker.Failure.{Failure}
use keymaker.Ovh.Pacing.{status_of, is_ok, again, paced, get}

module _ (call : ℕ → Option Failure) where
  -- The outcome of sending from number `from` on: the error is that of the last time, every time
  -- before it was refused for its rate, and it was sent at most `most` times.
  pub record IsPaced (from most : ℕ) (outcome : Option Failure × ℕ) : Type 0 where
    pub last : ℕ
    pub counts : outcome.1 ≡ suc last
    pub starts : from ≤ last
    pub bounded : last < from + most
    pub answer : outcome.0 ≡ call last
    pub refusals : (i : ℕ) → from ≤ i → i < last → status_of (call i) ≡ 429
    pub stops : suc last < from + most → status_of (call last) ≢ 429

  IsPaced-again : (left from : ℕ) → IsPaced from (suc left) (again call left (suc from) (call from))
  unfolding again
  IsPaced-again zero from = record {
    last = from;
    counts = refl;
    starts = omega arith;
    bounded = omega arith;
    answer = refl;
    refusals = λ i lo hi. absurd (omega arith);
    stops = λ lt. absurd (omega arith);
  }
  IsPaced-again (suc left) from = elim (Bool-cases (status_of (call from) == 429)) [
    | inl refused' ↦
        let k = IsPaced-again left (suc from) in
        rw refused' (record {
          last = k.last;
          counts = k.counts;
          starts = omega (arith, k.starts);
          bounded = omega (arith, k.bounded);
          answer = k.answer;
          refusals = λ i lo hi. elim (Bool-cases (i == from)) [
            | inl first ↦
                ap (λ j. status_of (call j)) (eq_of i from first)
                ∙ eq_of (status_of (call from)) 429 refused'
            | inr later ↦ k.refusals i (ground arith) hi
          ];
          stops = λ lt. k.stops (omega arith);
        })
    | inr final ↦ rw final (record {
      last = from;
      counts = refl;
      starts = omega arith;
      bounded = omega arith;
      answer = refl;
      refusals = λ i lo hi. absurd (omega arith);
      stops = λ lt. ne_of (status_of (call from)) 429 final;
    })
  ]

  pub paced-IsPaced : (from : ℕ) → IsPaced from 4 (paced call from)
  unfolding paced
  paced-IsPaced from = IsPaced-again 3 from

  -- The errors after which a read is sent again: a refusal for its rate, or no answer at all.
  abbrev pub IsRetried : Option Failure → Type 0
  IsRetried e = (status_of e ≡ 429) ⊎ ((is_ok e ≡ false) × (status_of e ≡ 0))

  pub record IsRead (outcome : Option Failure × ℕ) : Type 0 where
    pub last : ℕ
    pub counts : outcome.1 ≡ suc last
    pub bounded : last < 8
    pub answer : outcome.0 ≡ call last
    pub retries : (i : ℕ) → i < last → IsRetried (call i)

  IsRead-first : IsRead (paced call 0)
  IsRead-first =
      let k = paced-IsPaced 0 in
      record {
        last = k.last;
        counts = k.counts;
        bounded = omega (arith, k.bounded);
        answer = k.answer;
        retries = λ i lt. inl (k.refusals i (omega arith) lt);
      }

  IsRead-second :
      is_ok (paced call 0).0 ≡ false
      → status_of (paced call 0).0 ≡ 0
      → IsRead (paced call (paced call 0).1)
  IsRead-second failed silent =
      let k = paced-IsPaced 0 in
      let m = paced-IsPaced (paced call 0).1 in
      record {
        last = m.last;
        counts = m.counts;
        bounded = omega (arith, m.bounded, k.bounded, k.counts);
        answer = m.answer;
        retries = λ i lt. elim (Bool-cases (i == k.last)) [
          | inl end ↦
              let e : call i ≡ (paced call 0).0 = ap call (eq_of i k.last end) ∙ sym k.answer in
              rw e (inr (failed, silent))
          | inr other ↦ elim (Bool-cases (ltb i k.last)) [
            | inl before ↦ inl (k.refusals i (omega arith) (ground arith))
            | inr after ↦ inl (m.refusals i (ground (arith, k.counts)) lt)
          ]
        ];
      }

  -- A read is sent at most eight times. Its outcome is that of the last time, and each time before
  -- that was a refusal for its rate or a failure that was no answer of the API.
  pub get-IsRead : (ended ends : Bool) → IsRead (get call ended ends)
  unfolding get
  get-IsRead ended ends =
      elim (Bool-cases (is_ok (paced call 0).0 || not (status_of (paced call 0).0 == 0) || ended)) [
        | inl final ↦ rw final IsRead-first
        | inr silent ↦
            rw silent
              (elim ends
                as (λ b. IsRead (if b then paced call 0 else paced call (paced call 0).1)) [
                  | true ↦ IsRead-first
                  | false ↦ IsRead-second (ground arith) (ground arith)
                ])
      ]
