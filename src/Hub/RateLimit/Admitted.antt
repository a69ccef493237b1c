-- ===== src/Hub/RateLimit/Admitted.antt =====
-- How many requests internal/hub/rate_limit.go admits.
use barrikade_lens.Common.{
  ℕ, suc, ◌-◌, ◌≤◌, Bool, true, false, ◌&&◌, String, List, [], ◌∷◌, ◌==◌, ◌≡◌, refl, ap, ◌∙◌, arith,
  eq_iff, eqb, ltb, if◌then◌else◌, Bool-cases, inl, inr,
}
use barrikade_lens.Hub.RateLimit.{
  LimitRow, LimitCall, Verdict, admitted, window_of, is_limit_row, count_request, decide,
  rate_limit,
}

-- The requests that were counted for a key in a window.
abbrev pub counted : String → String → ℕ → List LimitRow → ℕ
counted scope digest start [] = 0
counted scope digest start (row ∷ rows) =
    if is_limit_row scope digest start row
    then row.request_count
    else counted scope digest start rows

abbrev is_admitted : Verdict → Bool
is_admitted admitted = true
is_admitted _ = false

-- The requests of a key in a window that are admitted, of a sequence of requests.
abbrev pub admissions : ℕ → ℕ → String → String → ℕ → List LimitCall → List LimitRow → ℕ
admissions limit window scope digest start [] table = 0
admissions limit window scope digest start (call ∷ calls) table =
    let (verdict, after) = rate_limit limit window call table in
    let later = admissions limit window scope digest start calls after in
    if is_admitted verdict
      && (call.scope == scope && call.digest == digest && eqb (window_of window call.now) start)
    then suc later
    else later

count_request-counted :
    (scope digest s d : String) (start t window : ℕ) (table : List LimitRow)
    → counted s d t (count_request scope digest start window table).1 ≡ (
        if scope == s && digest == d && eqb start t
        then suc (counted s d t table)
        else counted s d t table)
unfolding count_request is_limit_row
count_request-counted scope digest s d start t window [] = ground arith
count_request-counted scope digest s d start t window (row ∷ rows) = ground (
  arith,
  eq_iff scope s,
  eq_iff digest d,
  eq_iff row.scope s,
  eq_iff row.scope scope,
  eq_iff row.key_digest d,
  eq_iff row.key_digest digest,
  count_request-counted scope digest s d start t window rows,
)

count_request-count :
    (scope digest : String) (start window : ℕ) (table : List LimitRow)
    → (count_request scope digest start window table).0 ≡ suc (counted scope digest start table)
unfolding count_request
count_request-count scope digest start window [] = refl
count_request-count scope digest start window (row ∷ rows) =
    ground (arith, count_request-count scope digest start window rows)

decide_over :
    (limit start window now count : ℕ)
    → is_admitted (decide limit start window now count) ≡ (if ltb limit count then false else true)
unfolding decide
decide_over limit start window now count = elim (Bool-cases (ltb limit count)) [
  | inl e ↦ rw e refl
  | inr e ↦ rw e refl
]

-- One more is admitted only while the count is within the limit.
admissions_step :
    (limit c c' later : ℕ) (over same : Bool)
    → later ≤ limit - c'
    → (same ≡ true → (c' ≡ suc c) × (over ≡ ltb limit (suc c)))
    → (same ≡ false → c' ≡ c)
    → (if (if over then false else true) && same then suc later else later) ≤ limit - c
admissions_step limit c c' later over same h t f = ground (arith, h, t, f)

counted-same :
    (scope digest s d : String) (start t : ℕ) (table : List LimitRow)
    → (scope == s && digest == d && eqb start t) ≡ true
    → counted scope digest start table ≡ counted s d t table
unfolding is_limit_row
counted-same scope digest s d start t [] h = refl
counted-same scope digest s d start t (row ∷ rows) h = ground (
  arith,
  h,
  eq_iff scope s,
  eq_iff digest d,
  eq_iff row.scope s,
  eq_iff row.scope scope,
  eq_iff row.key_digest d,
  eq_iff row.key_digest digest,
  counted-same scope digest s d start t rows h,
)

counted_if : (b : Bool) (m n : ℕ) → b ≡ true → (if b then m else n) ≡ m
counted_if b m n h = rw h refl

counted_else : (b : Bool) (m n : ℕ) → b ≡ false → (if b then m else n) ≡ n
counted_else b m n h = rw h refl

-- In a window a key is admitted at most as often as the limit allows after the requests that were
-- counted before, in any sequence of requests, also of other keys, scopes and windows.
pub admissions_bound :
    (limit window : ℕ) (scope digest : String) (start : ℕ) (calls : List LimitCall)
    (table : List LimitRow)
    → admissions limit window scope digest start calls table
      ≤ limit - counted scope digest start table
unfolding rate_limit
admissions_bound limit window scope digest start [] table = ground arith
admissions_bound limit window scope digest start (call ∷ calls) table =
    elim (Bool-cases call.answered) [
      | inr e ↦ rw e (admissions_bound limit window scope digest start calls table)
      | inl e ↦
          let first = window_of window call.now in
          let count = (count_request call.scope call.digest first window table).0 in
          let after = (count_request call.scope call.digest first window table).1 in
          let same = call.scope == scope && call.digest == digest && eqb first start in
          let grown =
            count_request-counted call.scope call.digest scope digest first start window table in
          rw (e, decide_over limit first window call.refused_at count)
            (admissions_step limit (counted scope digest start table)
              (counted scope digest start after)
              (admissions limit window scope digest start calls after) (ltb limit count) same
              (admissions_bound limit window scope digest start calls after)
              (λ m. (
                grown ∙ counted_if same _ _ m,
                ap (ltb limit) (
                    count_request-count call.scope call.digest first window table
                    ∙ ap suc
                        (counted-same call.scope call.digest scope digest first start table m)),
              ))
              (λ m. grown ∙ counted_else same _ _ m))
    ]
