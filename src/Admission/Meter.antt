-- ===== src/Admission/Meter.antt =====
-- The build seconds of crates/control/src/admission.rs as a condition on its tables: debits are
-- credited once and exactly, and what is not credited is within the allowance.
use hostlet_app.Base.{
  ℕ, ◌+◌, ◌≤◌, ◌≡◌, ◌≢◌, inl, inr, refl, sym, ◌∙◌, subst, Bool, true, false, not, ◌&&◌, ◌||◌,
  Option, none, some, List, [], ◌∷◌, ◌++◌, any, any-append, ◌==◌, All, All-map, All-append,
  All-every, Bool-cases, ==_iff, ==_refl, is_some_of, arith,
}
use mathlib.Core.Option.{some-injective}
use hostlet_app.Base.Table.{select, In}
use hostlet_app.Base.Growth.{Unique, append-Unique}
use hostlet_app.Base.Counts.{sum_of, sum_of-append, sum_of-ext, sum_of-without}
use hostlet_app.Admission.Model.{EntitlementRow, UsageRow}
use hostlet_app.Admission.Store.{of_account, is_debit, account_debit, account_credit, row_seconds}
use hostlet_app.Admission.Usage.{debit_row, credits}

-- A debit of an account that no row credits.
abbrev pub outstanding : List UsageRow → ℕ → UsageRow → Bool
outstanding us account u = account_debit account u && not (any (credits u.id) us)

-- A row credits nothing, or a debit that is there.
abbrev pub CreditsADebit : List UsageRow → UsageRow → Type 0
CreditsADebit us u = elim u.debit_event_id [ none ↦ Unit | some id ↦ any (debit_row id) us ≡ true ]

module _ (es : List EntitlementRow) (us : List UsageRow) where
  -- Rows have one identifier each and credit debits that are there; what was debited to an account
  -- is what was credited and what is outstanding; and it is within the allowance and the credits.
  pub record Metered : Type 0 where
    pub usage_ids : Unique (λ u. u.id) us
    pub credited_debits : All (CreditsADebit us) us
    pub balance :
        (account : ℕ)
        → sum_of row_seconds (account_debit account) us
          ≡ sum_of row_seconds (account_credit account) us
            + sum_of row_seconds (outstanding us account) us
    pub allowance :
        (account : ℕ) (e : EntitlementRow)
        → select (of_account account) es ≡ some e
        → sum_of row_seconds (account_debit account) us
          ≤ e.build_seconds_limit + sum_of row_seconds (account_credit account) us

CreditsADebit-some :
    (us : List UsageRow) (u : UsageRow) (id : ℕ)
    → u.debit_event_id ≡ some id
    → any (debit_row id) us ≡ true
    → CreditsADebit us u
CreditsADebit-some us u id e h =
    subst (λ o. elim o as (λ _. Type 0) [ none ↦ Unit | some d ↦ any (debit_row d) us ≡ true ])
      (sym e) h

-- A row that is added leaves debits where they are.
CreditsADebit-append :
    (us : List UsageRow) (u v : UsageRow) → CreditsADebit us v → CreditsADebit (us ++ u ∷ []) v
CreditsADebit-append us u v h = go v.debit_event_id h
  where
    go :
        (o : Option ℕ)
        → (elim o as (λ _. Type 0) [ none ↦ Unit | some id ↦ any (debit_row id) us ≡ true ])
        → (elim o as (λ _. Type 0) [
          | none ↦ Unit
          | some id ↦ any (debit_row id) (us ++ u ∷ []) ≡ true
        ])
    go none h = tt
    go (some id) h = rw (any-append (debit_row id) us u, h) refl

-- No row credits an identifier that is new.
credits-fresh :
    (id : ℕ) (all_rows us : List UsageRow)
    → any (λ v. v.id == id) all_rows ≡ false
    → All (CreditsADebit all_rows) us
    → any (credits id) us ≡ false
credits-fresh id all_rows [] fresh known = refl
credits-fresh id all_rows (u ∷ us) fresh known =
    rw (credits-fresh id all_rows us fresh known.1) (here u.debit_event_id known.0)
  where
    true-false : true ≢ false
    true-false h = cc

    no_debit :
        (rows : List UsageRow)
        → any (λ v. v.id == id) rows ≡ false
        → any (debit_row id) rows ≡ false
    no_debit [] h = refl
    no_debit (v ∷ rows) h = ground (arith, no_debit rows)

    here :
        (o : Option ℕ)
        → (elim o as (λ _. Type 0) [ none ↦ Unit | some d ↦ any (debit_row d) all_rows ≡ true ])
        → (is_some_of o id || false) ≡ false
    here none h = refl
    here (some d) h = elim (Bool-cases (d == id)) [
      | inl same ↦ absurd (
          true-false (
            sym h
            ∙ subst (λ x. any (debit_row x) all_rows ≡ false) (sym ((==_iff d id).0 same))
                (no_debit all_rows fresh)))
      | inr other ↦ rw other refl
    ]

module _ {es : List EntitlementRow} {us : List UsageRow} where
  -- A debit within the allowance.
  pub debit-Metered :
      (u : UsageRow) (e : EntitlementRow)
      → any (λ v. v.id == u.id) us ≡ false
      → is_debit u.kind ≡ true
      → u.debit_event_id ≡ none
      → select (of_account u.account_id) es ≡ some e
      → sum_of row_seconds (account_debit u.account_id) us + u.seconds
        ≤ e.build_seconds_limit + sum_of row_seconds (account_credit u.account_id) us
      → Metered es us
      → Metered es (us ++ u ∷ [])
  debit-Metered u e fresh debit plain found room m = record {
    usage_ids = append-Unique (λ v. v.id) us u m.usage_ids fresh;
    credited_debits =
        All-append (CreditsADebit (us ++ u ∷ [])) us (u ∷ [])
          (All-map (CreditsADebit us) _ us (CreditsADebit-append us u) m.credited_debits)
          (rw plain tt, tt);
    balance = λ account.
        let before = m.balance account in
        rw
          (
            sum_of-append row_seconds (account_debit account) us u,
            sum_of-append row_seconds (account_credit account) us u,
            sum_of-append row_seconds (outstanding (us ++ u ∷ []) account) us u,
            sum_of-ext row_seconds (outstanding (us ++ u ∷ []) account) (outstanding us account) us
                (All-every _ us (λ x. stays account x)),
            own account,
            debit,
          )
          (ground (arith, before));
    allowance = λ account e' listed. elim (Bool-cases (u.account_id == account)) [
      | inl mine ↦
          subst
            (λ a.
              select (of_account a) es ≡ some e'
              → sum_of row_seconds (account_debit a) (us ++ u ∷ [])
                ≤ e'.build_seconds_limit + sum_of row_seconds (account_credit a) (us ++ u ∷ []))
            ((==_iff u.account_id account).0 mine) (own_allowance e') listed
      | inr other ↦
          let before = m.allowance account e' listed in
          rw
            (
              sum_of-append row_seconds (account_debit account) us u,
              sum_of-append row_seconds (account_credit account) us u,
              other,
            )
            (omega (arith, before))
    ];
  }
    where
      never : (id : ℕ) → any (credits id) (us ++ u ∷ []) ≡ any (credits id) us
      never id = rw (any-append (credits id) us u, plain) (ground arith)

      stays :
          (account : ℕ) (x : UsageRow)
          → outstanding (us ++ u ∷ []) account x ≡ outstanding us account x
      stays account x = rw (never x.id) refl

      own : (account : ℕ) → outstanding (us ++ u ∷ []) account u ≡ account_debit account u
      own account = rw (never u.id, credits-fresh u.id us us fresh m.credited_debits) (ground arith)

      own_allowance :
          (e' : EntitlementRow)
          → select (of_account u.account_id) es ≡ some e'
          → sum_of row_seconds (account_debit u.account_id) (us ++ u ∷ [])
            ≤ e'.build_seconds_limit
              + sum_of row_seconds (account_credit u.account_id) (us ++ u ∷ [])
      own_allowance e' listed =
          let same = some-injective e e' (sym found ∙ listed) in
          rw
            (
              sum_of-append row_seconds (account_debit u.account_id) us u,
              sum_of-append row_seconds (account_credit u.account_id) us u,
              ==_refl u.account_id,
              debit,
              sym same,
            )
            (omega (arith, room))

  -- A credit of a debit that has none, for its account and of its seconds.
  pub credit-Metered :
      (u d : UsageRow)
      → any (λ v. v.id == u.id) us ≡ false
      → is_debit u.kind ≡ false
      → u.debit_event_id ≡ some d.id
      → In d us
      → is_debit d.kind ≡ true
      → any (debit_row d.id) us ≡ true
      → u.account_id ≡ d.account_id
      → u.seconds ≡ d.seconds
      → any (credits d.id) us ≡ false
      → Metered es us
      → Metered es (us ++ u ∷ [])
  credit-Metered u d fresh credit points there debit listed account_same seconds_same uncredited m =
      record {
        usage_ids = append-Unique (λ v. v.id) us u m.usage_ids fresh;
        credited_debits =
            All-append (CreditsADebit (us ++ u ∷ [])) us (u ∷ [])
              (All-map (CreditsADebit us) _ us (CreditsADebit-append us u) m.credited_debits)
              (
                CreditsADebit-some (us ++ u ∷ []) u d.id points
                    (rw (any-append (debit_row d.id) us u, listed) refl),
                tt,
              );
        balance = λ account.
            let before = m.balance account in
            let without =
              sum_of-without (λ v. v.id) row_seconds (outstanding us account)
                (outstanding (us ++ u ∷ []) account) d us m.usage_ids there (others account)
                (stops account) in
            rw
              (
                sum_of-append row_seconds (account_debit account) us u,
                sum_of-append row_seconds (account_credit account) us u,
                sum_of-append row_seconds (outstanding (us ++ u ∷ []) account) us u,
                credit,
                account_same,
                seconds_same,
              )
              (ground (arith, before, rw (uncredited, debit) at without));
        allowance = λ account e listed.
            let before = m.allowance account e listed in
            rw
              (
                sum_of-append row_seconds (account_debit account) us u,
                sum_of-append row_seconds (account_credit account) us u,
                credit,
              )
              (ground (arith, before));
      }
    where
      others :
          (account : ℕ) (x : UsageRow)
          → x.id ≢ d.id
          → outstanding (us ++ u ∷ []) account x ≡ outstanding us account x
      others account x apart = rw (any-append (credits x.id) us u, points) (ground (arith, apart))

      stops : (account : ℕ) → outstanding (us ++ u ∷ []) account d ≡ false
      stops account = rw (any-append (credits d.id) us u, points, ==_refl d.id) (ground arith)
