-- ===== src/TargetChecks/FieldBounds.antt =====
-- What the normal form of the fields of a check promises the columns of models/target_check.py.
use monitoring_maxval.Base.{
  ℕ, ◌≤◌, true, ◌&&◌, ◌||◌, Option, none, some, List, leb, leb→le, ◌≡◌, refl, arith, subst, inl,
  inr, Bool-cases,
}
use monitoring_maxval.Base.Int.{ℤ, pos, negsuc, pos_part}
use monitoring_maxval.Base.Result.{
  ok, Post, returned, and_then, require-Post, value_of, Any, result-Post,
}
use monitoring_maxval.Base.Text.{String, str_eq}
use monitoring_maxval.Base.Strings.{size, stripped, starts_with, clean_text, if_some}
use monitoring_maxval.TargetChecks.Errors.{FieldError}
use monitoring_maxval.TargetChecks.Fields.{
  CheckInput, CheckFields, is_between, is_address, clean_address, clean_port, typed_path,
  clean_path, to_ℕ, is_web, normalize_check_fields, is_one_of,
}

pub record FitsColumns (c : CheckFields) : Type 0 where
  pub name_least : 2 ≤ size c.name
  pub name_most : size c.name ≤ 160
  pub address : if_some is_address c.address_override ≡ true
  pub port_least : 1 ≤ c.port
  pub port_most : c.port ≤ 65535
  pub path_start : starts_with b'/' c.path ≡ true
  pub path_most : size c.path ≤ 501
  pub timeout : if_some (λ t. leb 500 t && leb t 60000) c.timeout_seconds ≡ true
  pub retries : c.retries ≤ 10

record Between (low high n : ℕ) : Type 0 where
  pub least : low ≤ n
  pub most : n ≤ high

is_between-Between :
    (low high : ℕ) (a : ℤ) → is_between low high a ≡ true → Between low high (pos_part a)
is_between-Between low high (pos n) h = record { least = ground arith; most = ground arith }
is_between-Between low high (negsuc n) h = record { least = ground arith; most = ground arith }

to_ℕ-if_some :
    (a : Option ℤ)
    → if_some (is_between 500 60000) a ≡ true
    → if_some (λ t. leb 500 t && leb t 60000) (to_ℕ a) ≡ true
to_ℕ-if_some none h = refl
to_ℕ-if_some (some a) h =
    let b = is_between-Between 500 60000 a h in ground (arith, b.least, b.most)

clean_address-is_address :
    (t : String) (a : Option String)
    → if_some is_address (clean_text a) ≡ true
    → if_some is_address (clean_address t a) ≡ true
unfolding clean_address
clean_address-is_address t a h = elim (Bool-cases (str_eq t "directory" || str_eq t "dns")) [
  | inl q ↦ rw q refl
  | inr q ↦ rw q h
]

record IsPath (s : String) : Type 0 where
  pub start : starts_with b'/' s ≡ true
  pub most : size s ≤ 501

clean_path-IsPath : (t s : String) → size s ≤ 500 → IsPath (clean_path t s)
unfolding clean_path size
clean_path-IsPath t s h = elim (Bool-cases (is_web t)) [
  | inr w ↦ rw w (record { start = refl; most = omega arith })
  | inl w ↦ rw w (elim (Bool-cases (starts_with b'/' s)) [
    | inl q ↦ rw q (record { start = q; most = omega (arith, h) })
    | inr q ↦ rw q (record { start = refl; most = omega (arith, h) })
  ])
]

normalize_check_fields-Post :
    (names : List String) (f : CheckInput) → Post FitsColumns Any (normalize_check_fields names f)
unfolding normalize_check_fields
normalize_check_fields-Post names f =
    and_then
      (require-Post (leb 2 (size (stripped f.name)) && leb (size (stripped f.name)) 160)
        FieldError.name_length)
      λ _ n.
        and_then
          (require-Post (is_one_of f.checker_type names || str_eq f.checker_type "directory")
            FieldError.unknown_checker)
          λ _ _.
            and_then
              (require-Post (if_some is_address (clean_text f.address_override))
                FieldError.bad_address)
              λ _ a. and_then (result-Post (clean_port f.checker_type f.port)) λ port _.
                and_then (require-Post (is_between 1 65535 port) FieldError.bad_port) λ _ p.
                  and_then (require-Post (leb (size (typed_path f.path)) 500) FieldError.long_path)
                    λ _ l.
                      and_then
                        (require-Post (if_some (is_between 500 60000) f.timeout_seconds)
                          FieldError.bad_timeout)
                        λ _ t.
                          and_then (require-Post (is_between 0 10 f.retries) FieldError.bad_retries)
                            λ _ r.
                              let checked_port = is_between-Between 1 65535 port p in
                              let path =
                                clean_path-IsPath f.checker_type (typed_path f.path)
                                  (leb→le (size (typed_path f.path)) 500 l) in
                              returned (record {
                                name_least = ground (arith, n);
                                name_most = ground (arith, n);
                                address =
                                    clean_address-is_address f.checker_type f.address_override a;
                                port_least = checked_port.least;
                                port_most = checked_port.most;
                                path_start = path.start;
                                path_most = path.most;
                                timeout = to_ℕ-if_some f.timeout_seconds t;
                                retries = (is_between-Between 0 10 f.retries r).most;
                              })

-- Accepted fields fit the constraints of their columns: the name has 2 to 160 characters, the address
-- at most 255 and no white space, the port is from 1 to 65535, the path begins with a slash and has
-- at most 501 characters, the timeout is from 0.5 to 60 seconds, and at most 10 retries are made.
pub normalize_check_fields-FitsColumns :
    (names : List String) (f : CheckInput) {c : CheckFields}
    → normalize_check_fields names f ≡ ok c
    → FitsColumns c
normalize_check_fields-FitsColumns names f e =
    value_of (subst (Post FitsColumns Any) e (normalize_check_fields-Post names f))
