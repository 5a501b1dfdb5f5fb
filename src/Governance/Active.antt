-- ===== src/Governance/Active.antt =====
-- What the activation of a model leaves in model_runs and active_models.
use simple_scanner.Common.{
  ℕ, String, true, false, ◌&&◌, Option, some, List, [], ◌∷◌, ◌≡◌, refl, inl, inr, arith, map,
  keep_if, Bool-cases, str_eq, eq_iff, All, subst, ◌∙◌,
}
use simple_scanner.Common.Texts.{str_eq_self}
use simple_scanner.Governance.Model.{ModelRun, ActiveModel, ResearchStore}
use simple_scanner.Governance.Tables.{
  first, upsert, same_slot, marked_run, activate_row, in_slot, get_active,
}

-- The text tests of a slot, through an equation of texts.
str_eq_right : (a b c : String) → str_eq a b ≡ true → str_eq a c ≡ str_eq b c
str_eq_right a b c e = subst (λ t. str_eq a c ≡ str_eq t c) ((eq_iff a b).0 e) refl

module _ {F : Type 0} where
  marked_runs-active :
      (m : ModelRun F) (rows : List (ModelRun F))
      → m.active ≡ true
      → All (λ row. row.active ≡ str_eq row.model_version m.model_version) (map (marked_run m) rows)
  marked_runs-active m [] e = tt
  marked_runs-active m (r ∷ rows) e = elim (Bool-cases (str_eq r.model_version m.model_version)) [
    | inl same ↦ simp same (simp (e, str_eq_self m.model_version) refl, marked_runs-active m rows e)
    | inr other ↦ simp other (refl, marked_runs-active m rows e)
  ]

  in_slot-same :
      (a b : ActiveModel F) → a.strategy_scope ≡ "default" → in_slot a.model_type b ≡ same_slot b a
  in_slot-same a b e =
      subst (λ t. (str_eq b.model_type a.model_type && str_eq b.strategy_scope t) ≡ same_slot b a) e
        refl

  in_slot_self : (a : ActiveModel F) → a.strategy_scope ≡ "default" → in_slot a.model_type a ≡ true
  in_slot_self a e = simp (str_eq_self a.model_type, e) refl

  upsert-slot :
      (a : ActiveModel F) (rows : List (ActiveModel F))
      → a.strategy_scope ≡ "default"
      → first (keep_if (in_slot a.model_type) (upsert same_slot a rows)) ≡ some a
  unfolding upsert
  upsert-slot a [] e = simp (in_slot_self a e) refl
  upsert-slot a (b ∷ rows) e = elim (Bool-cases (same_slot b a)) [
    | inl same ↦ simp (same, in_slot_self a e) refl
    | inr other ↦ simp (other, in_slot-same a b e) (upsert-slot a rows e)
  ]

  upsert-other_slot :
      (a : ActiveModel F) (t : String) (rows : List (ActiveModel F))
      → str_eq a.model_type t ≡ false
      → first (keep_if (in_slot t) (upsert same_slot a rows)) ≡ first (keep_if (in_slot t) rows)
  unfolding upsert
  upsert-other_slot a t [] n = simp n refl
  upsert-other_slot a t (b ∷ rows) n = elim (Bool-cases (same_slot b a)) [
    | inl same ↦
        simp (same, n, str_eq_right b.model_type a.model_type t (ground (arith, same))) refl
    | inr other ↦ elim (Bool-cases (in_slot t b)) [
      | inl here ↦ simp (other, here) refl
      | inr away ↦ simp (other, away) (upsert-other_slot a t rows n)
    ]
  ]

  -- After the activation of a model, a run is marked active exactly if it has the model's version, and
  -- the active model of the model's type is the model, marked active.
  pub activate_row-exclusive :
      (now : ℕ) (m : ModelRun F) (report : Option String) (s : ResearchStore F)
      → let s' = activate_row now m report s in
        All (λ row. row.active ≡ str_eq row.model_version m.model_version) s'.model_runs
        × (get_active m.model_type s' ≡ some (record m { active = true }))
  unfolding activate_row get_active
  activate_row-exclusive now m report s =
      let row : ActiveModel F = record {
        model_type = m.model_type;
        strategy_scope = "default";
        payload = record m { active = true };
        activated_at = now;
        validation_report_id = report;
      } in
      (
        marked_runs-active (record m { active = true }) s.model_runs refl,
        rw (get_active, upsert-slot row s.active_models refl) refl,
      )

  inactive_runs :
      (v w : String) (rows : List (ModelRun F))
      → str_eq w v ≡ false
      → All (λ row. row.active ≡ str_eq row.model_version v) rows
      → All (λ row. str_eq row.model_version w ≡ true → row.active ≡ false) rows
  inactive_runs v w [] n h = tt
  inactive_runs v w (r ∷ rows) n h =
      ((λ e. h.0 ∙ str_eq_right r.model_version w v e ∙ n), inactive_runs v w rows n h.1)

  -- The activation of a model of one type leaves the active model of another type in active_models,
  -- but marks the runs of that model, when it has another version, as inactive in model_runs.
  pub activate_row-other_type :
      (now : ℕ) (m other : ModelRun F) (report : Option String) (t : String) (s : ResearchStore F)
      → get_active t s ≡ some other
      → str_eq m.model_type t ≡ false
      → str_eq other.model_version m.model_version ≡ false
      → let s' = activate_row now m report s in
        (get_active t s' ≡ some other)
        × All
            (λ row. str_eq row.model_version other.model_version ≡ true → row.active ≡ false)
            s'.model_runs
  unfolding activate_row get_active
  activate_row-other_type now m other report t s e n v =
      let row : ActiveModel F = record {
        model_type = m.model_type;
        strategy_scope = "default";
        payload = record m { active = true };
        activated_at = now;
        validation_report_id = report;
      } in
      (
        rw (get_active, upsert-other_slot row t s.active_models n) e,
        inactive_runs m.model_version other.model_version _ v
            (marked_runs-active (record m { active = true }) s.model_runs refl),
      )
