-- ===== src/TargetChecks/SameCheck.antt =====
-- Which columns of a check the handlers leave alone: its key, its target, and whether it is primary.
use monitoring_maxval.Base.{ℕ, Option, none, some, ◌≡◌, refl, ◌∙◌, Bool-cases, inl, inr}
use monitoring_maxval.Model.{Store, TargetCheck}
use monitoring_maxval.TargetChecks.Rules.{same_execution}
use monitoring_maxval.Base.Text.{str_eq}
use monitoring_maxval.TargetChecks.Directory.{
  DirectoryCheckConfig, clear_directory_fields, clear_directory_runtime,
}
use monitoring_maxval.TargetChecks.Form.{Services, CheckForm, Prepared, assign, assign_directory}
use monitoring_maxval.TargetChecks.Handlers.{
  create_directory, update_directory, blank_check, created_check, edited_check, renewed,
  updated_check, toggled_check,
}

-- The same row, of the same target, primary or not as it was.
pub record IsSameCheck (c d : TargetCheck) : Type 0 where
  pub id_lem : c.id ≡ d.id
  pub target_lem : c.target_id ≡ d.target_id
  pub primary_lem : c.is_primary ≡ d.is_primary

abbrev pub KeepsIdentity : (TargetCheck → TargetCheck) → Type 0
KeepsIdentity f = (c : TargetCheck) → IsSameCheck (f c) c

IsSameCheck-trans : {b c d : TargetCheck} → IsSameCheck b c → IsSameCheck c d → IsSameCheck b d
IsSameCheck-trans h k = record {
  id_lem = h.id_lem ∙ k.id_lem;
  target_lem = h.target_lem ∙ k.target_lem;
  primary_lem = h.primary_lem ∙ k.primary_lem;
}

clear_directory_fields-IsSameCheck : KeepsIdentity clear_directory_fields
unfolding clear_directory_fields clear_directory_runtime
clear_directory_fields-IsSameCheck c = record {
  id_lem = refl;
  target_lem = refl;
  primary_lem = refl;
}

renewed-IsSameCheck : (s : Services) (form : CheckForm) → KeepsIdentity (renewed s form)
unfolding renewed clear_directory_runtime
renewed-IsSameCheck s form c = elim (Bool-cases (str_eq c.checker_type "directory")) [
  | inl q ↦ rw (q, renewed) (record { id_lem = refl; target_lem = refl; primary_lem = refl })
  | inr q ↦ rw (q, renewed) (record { id_lem = refl; target_lem = refl; primary_lem = refl })
]

module _ (s : Services) (form : CheckForm) where
  assign-IsSameCheck : (p : Prepared) → KeepsIdentity (assign s form p)
  unfolding assign
  assign-IsSameCheck p c = record { id_lem = refl; target_lem = refl; primary_lem = refl }

  assign_directory-IsSameCheck :
      (d : DirectoryCheckConfig) → KeepsIdentity (assign_directory s form d)
  unfolding assign_directory
  assign_directory-IsSameCheck d c = record { id_lem = refl; target_lem = refl; primary_lem = refl }

  create_directory-IsSameCheck :
      (d : Option DirectoryCheckConfig) → KeepsIdentity (create_directory s form d)
  create_directory-IsSameCheck none c = record {
    id_lem = refl;
    target_lem = refl;
    primary_lem = refl;
  }
  create_directory-IsSameCheck (some d) c = assign_directory-IsSameCheck d c

  update_directory-IsSameCheck :
      (d : Option DirectoryCheckConfig) → KeepsIdentity (update_directory s form d)
  update_directory-IsSameCheck none c = clear_directory_fields-IsSameCheck c
  update_directory-IsSameCheck (some d) c = assign_directory-IsSameCheck d c

  edited_check-IsSameCheck : (p : Prepared) → KeepsIdentity (edited_check s form p)
  unfolding edited_check
  edited_check-IsSameCheck p c =
      IsSameCheck-trans (update_directory-IsSameCheck p.directory (assign s form p c))
        (assign-IsSameCheck p c)

  pub updated_check-IsSameCheck : (p : Prepared) → KeepsIdentity (updated_check s form p)
  unfolding updated_check
  updated_check-IsSameCheck p c =
      elim (Bool-cases (same_execution s.sha256 (edited_check s form p c) c)) [
        | inl q ↦ rw (q, updated_check) (edited_check-IsSameCheck p c)
        | inr q ↦
            rw (q, updated_check)
              (IsSameCheck-trans (renewed-IsSameCheck s form (edited_check s form p c))
                (edited_check-IsSameCheck p c))
      ]

pub toggled_check-IsSameCheck : KeepsIdentity toggled_check
unfolding toggled_check
toggled_check-IsSameCheck c = record { id_lem = refl; target_lem = refl; primary_lem = refl }

module _ (s : Services) (form : CheckForm) where
  pub created_check-IsSameCheck :
      (target_id : ℕ) (db : Store) (p : Prepared) (id : ℕ)
      → IsSameCheck (created_check s form target_id db p id) (blank_check s form target_id db p id)
  unfolding created_check
  created_check-IsSameCheck target_id db p id =
      IsSameCheck-trans
        (create_directory-IsSameCheck s form p.directory
          (assign s form p (blank_check s form target_id db p id)))
        (assign-IsSameCheck s form p (blank_check s form target_id db p id))
