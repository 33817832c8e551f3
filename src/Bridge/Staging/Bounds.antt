-- ===== src/Bridge/Staging/Bounds.antt =====
-- src/bridge/store.ts: the limits of the staged files, over any calls.
use vkodex.Prelude.{
  ℕ, ◌+◌, ◌*◌, ◌≤◌, ◌≡◌, refl, sym, subst, Bool, true, false, Option, none, some, List, [], ◌∷◌,
  ◌++◌, arith, Bool-cases, inl, inr, Result-cases, ok, ◌⊎◌,
}
use vkodex.Prelude.JsText.{Text, ===_iff}
use vkodex.OperationJournal.Rows.{sum_rows, sum_rows-snoc}
use vkodex.Bridge.Staging.Tables.{
  StageRow, ready, RecycleRow, Stages, is_of, is_charged, charged_bytes, charged_count,
  stage_reserved_bytes, stage_reserved_count, every_row,
}
use vkodex.Bridge.Staging.Calls.{
  StageRequest, Reservation, new_stage, find_stage, over_limit, reserve_found, reserve_stage,
  StageCall, reserve, abandon, mark_ready, recycle_pending, recycle_done, step, run,
}
use vkodex.Bridge.Staging.Shed.{NoReserve, step-le}

bytes_settle :
    (owned : StageRow → Bool) (cs : List RecycleRow) (r : StageRow)
    → ((x : StageRow) → owned (record x { state = ready }) ≡ owned x)
    → charged_bytes owned cs (record r { state = ready }) ≤ charged_bytes owned cs r
unfolding is_charged
bytes_settle owned cs r same = ground (arith, same r)

bytes_fall :
    (owned : StageRow → Bool) (cs cs' : List RecycleRow) (r : StageRow)
    → (is_charged cs' r ≡ true → is_charged cs r ≡ true)
    → charged_bytes owned cs' r ≤ charged_bytes owned cs r
bytes_fall owned cs cs' r h = ground (arith, h)

count_settle :
    (owned : StageRow → Bool) (cs : List RecycleRow) (r : StageRow)
    → ((x : StageRow) → owned (record x { state = ready }) ≡ owned x)
    → charged_count owned cs (record r { state = ready }) ≤ charged_count owned cs r
unfolding is_charged
count_settle owned cs r same = ground (arith, same r)

count_fall :
    (owned : StageRow → Bool) (cs cs' : List RecycleRow) (r : StageRow)
    → (is_charged cs' r ≡ true → is_charged cs r ≡ true)
    → charged_count owned cs' r ≤ charged_count owned cs r
count_fall owned cs cs' r h = ground (arith, h)

-- A reservation that is made was within the limits, and adds one row.
record Made (s : Stages) (q : StageRequest) (now : ℕ) (s' : Stages) : Type 0 where
  within : over_limit s q ≡ false
  written : s' ≡ record s { reservations = s.reservations ++ (new_stage q now ∷ []) }

reserve_found-ok :
    (s : Stages) (q : StageRequest) (now : ℕ) (o : Option StageRow) {s' : Stages} {a : Reservation}
    → reserve_found s q now o ≡ ok (s', a)
    → (s' ≡ s) ⊎ Made s q now s'
unfolding reserve_found
reserve_found-ok s q now (some r) e = inl (ground arith)
reserve_found-ok s q now none {s'} e = elim (Bool-cases (over_limit s q)) [
  | inl over ↦ inl (ground arith)
  | inr within ↦ inr (record { within = within; written = ground arith })
]

reserve_stage-ok :
    (s : Stages) (q : StageRequest) (now : ℕ) {s' : Stages} {a : Reservation}
    → reserve_stage s q now ≡ ok (s', a)
    → (s' ≡ s) ⊎ Made s q now s'
unfolding reserve_stage
reserve_stage-ok s q now {s'} {a} e = elim (Bool-cases s.legacy_unaccounted) [
  | inl legacy ↦ inl (ground arith)
  | inr known ↦
      reserve_found-ok s q now (find_stage s.reservations q.file_key) {a = a} (ground arith)
]

-- The sums of one reservation's operation and of all stay within the limits.
record IsBounded (s : Stages) : Type 0 where
  operation_bytes : (b o : Text) → stage_reserved_bytes (is_of b o) s ≤ 512 * 1024 * 1024
  operation_count : (b o : Text) → stage_reserved_count (is_of b o) s ≤ 256
  global_bytes : stage_reserved_bytes every_row s ≤ 2 * 1024 * 1024 * 1024
  global_count : stage_reserved_count every_row s ≤ 2048

module _ (s : Stages) (q : StageRequest) (now : ℕ) (within : over_limit s q ≡ false) where
  abbrev grown : Stages
  grown = record s { reservations = s.reservations ++ (new_stage q now ∷ []) }

  grown_bytes :
      (owned : StageRow → Bool)
      → stage_reserved_bytes owned grown
        ≡ stage_reserved_bytes owned s + charged_bytes owned s.recycling (new_stage q now)
  unfolding stage_reserved_bytes
  grown_bytes owned =
      sum_rows-snoc (charged_bytes owned s.recycling) s.reservations (new_stage q now)

  grown_count :
      (owned : StageRow → Bool)
      → stage_reserved_count owned grown
        ≡ stage_reserved_count owned s + charged_count owned s.recycling (new_stage q now)
  unfolding stage_reserved_count
  grown_count owned =
      sum_rows-snoc (charged_count owned s.recycling) s.reservations (new_stage q now)

  made-IsBounded : IsBounded s → IsBounded grown
  unfolding over_limit
  made-IsBounded h = record {
    operation_bytes = λ b o. elim (Bool-cases (is_of b o (new_stage q now))) [
      | inl ours ↦
          let sb : q.binding_id ≡ b = ground (arith, ===_iff q.binding_id b) in
          let so : q.operation_id ≡ o = ground (arith, ===_iff q.operation_id o) in
          rw (sym sb, sym so) (ground (arith, grown_bytes (is_of q.binding_id q.operation_id)))
      | inr other ↦ ground (arith, grown_bytes (is_of b o), h.operation_bytes b o)
    ];
    operation_count = λ b o. elim (Bool-cases (is_of b o (new_stage q now))) [
      | inl ours ↦
          let sb : q.binding_id ≡ b = ground (arith, ===_iff q.binding_id b) in
          let so : q.operation_id ≡ o = ground (arith, ===_iff q.operation_id o) in
          rw (sym sb, sym so) (ground (arith, grown_count (is_of q.binding_id q.operation_id)))
      | inr other ↦ ground (arith, grown_count (is_of b o), h.operation_count b o)
    ];
    global_bytes = ground (arith, grown_bytes every_row);
    global_count = ground (arith, grown_count every_row);
  }

bytes-le :
    (owned : StageRow → Bool)
    → ((x : StageRow) → owned (record x { state = ready }) ≡ owned x)
    → (s : Stages) (c : StageCall) → NoReserve c
    → stage_reserved_bytes owned (step s c) ≤ stage_reserved_bytes owned s
unfolding stage_reserved_bytes
bytes-le owned same s c n =
    step-le (charged_bytes owned) (λ cs r. bytes_settle owned cs r same)
      (λ cs cs' r h. bytes_fall owned cs cs' r h) s c n

count-le :
    (owned : StageRow → Bool)
    → ((x : StageRow) → owned (record x { state = ready }) ≡ owned x)
    → (s : Stages) (c : StageCall) → NoReserve c
    → stage_reserved_count owned (step s c) ≤ stage_reserved_count owned s
unfolding stage_reserved_count
count-le owned same s c n =
    step-le (charged_count owned) (λ cs r. count_settle owned cs r same)
      (λ cs cs' r h. count_fall owned cs cs' r h) s c n

shed-IsBounded : (s : Stages) (c : StageCall) → NoReserve c → IsBounded s → IsBounded (step s c)
shed-IsBounded s c n h = record {
  operation_bytes =
      λ b o. omega (arith, bytes-le (is_of b o) (λ x. refl) s c n, h.operation_bytes b o);
  operation_count =
      λ b o. omega (arith, count-le (is_of b o) (λ x. refl) s c n, h.operation_count b o);
  global_bytes = omega (arith, bytes-le every_row (λ x. refl) s c n, h.global_bytes);
  global_count = omega (arith, count-le every_row (λ x. refl) s c n, h.global_count);
}

step-IsBounded : (s : Stages) (c : StageCall) → IsBounded s → IsBounded (step s c)
unfolding step
step-IsBounded s (reserve q now) h = elim (Result-cases (reserve_stage s q now)) [
  | inl ((s', a), e) ↦ rw e elim (reserve_stage-ok s q now e) [
    | inl same ↦ subst IsBounded (sym same) h
    | inr m ↦ subst IsBounded (sym m.written) (made-IsBounded s q now m.within h)
  ]
  | inr (x, e) ↦ rw e h
]
step-IsBounded s (abandon index c now) h = shed-IsBounded s (abandon index c now) tt h
step-IsBounded s (mark_ready k path) h = shed-IsBounded s (mark_ready k path) tt h
step-IsBounded s (recycle_pending k path now) h = shed-IsBounded s (recycle_pending k path now) tt h
step-IsBounded s (recycle_done k path now) h = shed-IsBounded s (recycle_done k path now) tt h

run-IsBounded : (cs : List StageCall) (s : Stages) → IsBounded s → IsBounded (run s cs)
unfolding run
run-IsBounded [] s h = h
run-IsBounded (c ∷ cs) s h = run-IsBounded cs (step s c) (step-IsBounded s c h)

-- Whatever calls follow on empty tables, the files charged to an operation never exceed 512 MiB or 256 in
-- number, and those charged in all never exceed 2 GiB or 2048 in number.
pub stage_quotas_kept :
    (s : Stages) (cs : List StageCall) (b o : Text)
    → s.reservations ≡ []
    → (stage_reserved_bytes (is_of b o) (run s cs) ≤ 512 * 1024 * 1024)
      × (stage_reserved_count (is_of b o) (run s cs) ≤ 256)
      × (stage_reserved_bytes every_row (run s cs) ≤ 2 * 1024 * 1024 * 1024)
      × (stage_reserved_count every_row (run s cs) ≤ 2048)
unfolding stage_reserved_bytes stage_reserved_count sum_rows
stage_quotas_kept s cs b o e =
    let start : IsBounded s = record {
      operation_bytes = λ b o. rw e (omega arith);
      operation_count = λ b o. rw e (omega arith);
      global_bytes = rw e (omega arith);
      global_count = rw e (omega arith);
    } in
    let h = run-IsBounded cs s start in
    (h.operation_bytes b o, h.operation_count b o, h.global_bytes, h.global_count)
