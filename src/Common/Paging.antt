-- ===== src/Common/Paging.antt =====
-- What `Query` of common/pkg/eventlog/eventlog.go returns.
use cirrus_sim.Base.{
  [], ◌∷◌, ℕ, ◌+◌, ◌≡◌, refl, take, List, length, suc, ◌++◌, ◌≤◌, drop, ◌<◌, zero, arith, keep_if,
  ap, String, Bool, ◌||◌, ◌==◌, string_eq, none, some, true, Bool-cases, inl, inr, if◌then◌else◌,
  ◌&&◌, ltb, lt→ltb, sym,
}
use cirrus_sim.Common.EventLog.{Filter, query, EventLog, Event, passes}
use cirrus_sim.Base.Int64.{slt, two63, slt-of_small}

length-take-le : {A : Type 0} (n : ℕ) (xs : List A) → length (take n xs) ≤ n
length-take-le zero xs = omega arith
length-take-le (suc n) [] = omega arith
length-take-le (suc n) (x ∷ xs) = omega (arith, length-take-le n xs)

drop-all : {A : Type 0} (n : ℕ) (xs : List A) → length xs ≤ n → drop n xs ≡ []
drop-all zero [] h = refl
drop-all zero (x ∷ xs) h = absurd (omega arith)
drop-all (suc n) [] h = refl
drop-all (suc n) (x ∷ xs) h = drop-all n xs (omega arith)

take-all : {A : Type 0} (n : ℕ) (xs : List A) → length xs ≤ n → take n xs ≡ xs
take-all zero [] h = refl
take-all zero (x ∷ xs) h = absurd (omega arith)
take-all (suc n) [] h = refl
take-all (suc n) (x ∷ xs) h = ap (λ l. x ∷ l) (take-all n xs (omega arith))

take-nil : {A : Type 0} (n : ℕ) → take {A = A} n [] ≡ []
take-nil zero = refl
take-nil (suc n) = refl

-- an offset that is not positive skips nothing
skipping :
    {A : Type 0} (o : ℕ) (xs : List A) → o < two63 → (if slt 0 o then drop o xs else xs) ≡ drop o xs
unfolding slt
skipping zero xs h = refl
skipping (suc o) xs h =
    rw (slt-of_small 0 (suc o) (omega arith) h, lt→ltb 0 (suc o) (omega arith)) refl

limiting :
    {A : Type 0} (n : ℕ) (xs : List A)
    → 0 < n
    → n < two63
    → (if slt 0 n && ltb n (length xs) then take n xs else xs) ≡ take n xs
limiting n xs h k = elim (Bool-cases (ltb n (length xs))) [
  | inl more ↦ rw (slt-of_small 0 n (omega arith) k, lt→ltb 0 n h, more) refl
  | inr all ↦
      rw (slt-of_small 0 n (omega arith) k, lt→ltb 0 n h, all) (sym (take-all n xs (ground arith)))
]

take-append :
    {A : Type 0} (n m : ℕ) (xs : List A) → take n xs ++ take m (drop n xs) ≡ take (n + m) xs
take-append zero m xs = let e : m ≡ 0 + m = omega arith in ap (λ k. take k xs) e
take-append (suc n) m [] = let e : suc (n + m) ≡ suc n + m = omega arith in rw (← e) (take-nil m)
take-append (suc n) m (x ∷ xs) =
    let e : suc (n + m) ≡ suc n + m = omega arith in rw (← e) (ap (λ l. x ∷ l) (take-append n m xs))

-- an empty wish allows everything
abbrev allows : String → String → Bool
allows wish name = wish == "" || name == wish

-- the events that the four parts of the filter allow, in the order in which they were recorded
abbrev pub matching : Filter → EventLog → List Event
matching f l =
    keep_if
      (λ e.
        allows f.simulator e.simulator
        && allows f.host_id e.host_id
        && allows f.operation e.operation
        && (elim f.after [ none ↦ true | some t ↦ slt t e.timestamp ]))
      l.events

-- With a positive limit, `Query` returns the matching events from the offset on, at most the limit of
-- them, and with it the number of all matching events. The offset is a number that is not negative.
pub query_lem :
    (f : Filter) (l : EventLog)
    → f.offset < two63
    → 0 < f.limit
    → f.limit < two63
    → query f l ≡ (take f.limit (drop f.offset (matching f l)), length (matching f l))
unfolding query passes
query_lem f l ho hl hm = ground (
  arith,
  skipping f.offset (matching f l),
  limiting f.limit (drop f.offset (matching f l)),
  drop-all f.offset (matching f l),
  take-nil {A = Event} f.limit,
)

-- Paging loses nothing and repeats nothing: the page of `n` events from the start and the page of `m`
-- events behind it are, put together, the page of `n + m` events from the start. Both sizes are
-- positive, and their sum is an `int64`.
pub query_pages :
    (f : Filter) (l : EventLog) (n m : ℕ)
    → 0 < n
    → 0 < m
    → n + m < two63
    → (query (record f { offset = 0; limit = n }) l).0
        ++ (query (record f { offset = n; limit = m }) l).0
      ≡ (query (record f { offset = 0; limit = n + m }) l).0
query_pages f l n m hn hm h =
    rw
      (
        query_lem (record f { offset = 0; limit = n }) l (omega arith) hn (omega arith),
        query_lem (record f { offset = n; limit = m }) l (omega arith) hm (omega arith),
        query_lem (record f { offset = 0; limit = n + m }) l (omega arith) (omega arith) h,
      )
      (take-append n m (matching f l))
