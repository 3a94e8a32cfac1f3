-- ===== src/Signing/Rotation.antt =====
-- The bundles of roots that the signing administration gives to the App.
use dev_control_open_harmony.Prelude.{
  ℕ, ◌≡◌, refl, ap, sym, some, length, All, all, ◌∙◌, String, Bool, true, false, ◌||◌, List, [],
  ◌∷◌, ◌++◌, eq_iff, arith, contains, map, inl, inr,
}
use dev_control_open_harmony.Errors.{Result, ok, raise, Result-cases, ok-injective}
use dev_control_open_harmony.Validation.{distinct}
use dev_control_open_harmony.Exec.{continue}
use dev_control_open_harmony.Dict.{get}
use dev_control_open_harmony.Signing.{
  Machine, Certificate, Files, bundle, failure, existing, read_certificate_bundle, write_if_ok,
  distinct_certificates, pem_bundle, certificates_in, is_ca_certificate, Content,
}
use dev_control_open_harmony.Signing.Operations.{
  bundle_of, certificate_count, staged, stage_root_ca_rotation, finalized,
  finalize_root_ca_rotation,
}
use dev_control_open_harmony.Signing.Issue.{
  IsCa, is_ca_certificate-IsCa, write_if_ok-written, write_if_ok-ok, read_certificate_bundle-ok,
}

-- The fingerprint stands among those of the certificates.
unfoldable pub has_fingerprint : Machine → String → List Certificate → Bool
unfolding contains
has_fingerprint m print cs = contains (map m.fingerprint cs) print

same_known : (seen : List String) (s t : String) → s ≡ t → contains seen s ≡ contains seen t
same_known seen s t same = ap (contains seen) same

distinct-has :
    (m : Machine) (seen : List String) (cs : List Certificate) (print : String)
    → (has_fingerprint m print (distinct_certificates m seen cs) || contains seen print)
      ≡ (has_fingerprint m print cs || contains seen print)
unfolding has_fingerprint distinct_certificates contains
distinct-has m seen [] print = refl
distinct-has m seen (c ∷ cs) print =
    let print' = m.fingerprint c in
    ground (
      arith,
      eq_iff print' print,
      distinct-has m seen cs print,
      distinct-has m (print' ∷ seen) cs print,
      same_known seen print' print,
    )

distinct-fresh :
    (m : Machine) (seen : List String) (cs : List Certificate) (print : String)
    → contains seen print ≡ true
    → has_fingerprint m print (distinct_certificates m seen cs) ≡ false
unfolding has_fingerprint distinct_certificates contains
distinct-fresh m seen [] print known = refl
distinct-fresh m seen (c ∷ cs) print known =
    let print' = m.fingerprint c in
    ground (
      arith,
      eq_iff print' print,
      distinct-fresh m seen cs print,
      distinct-fresh m (print' ∷ seen) cs print,
      same_known seen print' print,
    )

distinct-distinct :
    (m : Machine) (seen : List String) (cs : List Certificate)
    → distinct (map m.fingerprint (distinct_certificates m seen cs)) ≡ true
unfolding distinct distinct_certificates contains has_fingerprint
distinct-distinct m seen [] = refl
distinct-distinct m seen (c ∷ cs) =
    let print' = m.fingerprint c in
    ground (
      arith,
      eq_iff print' print',
      distinct-distinct m seen cs,
      distinct-distinct m (print' ∷ seen) cs,
      distinct-fresh m (print' ∷ seen) cs print',
    )

bundle_of-ok :
    (m : Machine) (given cs : List Certificate)
    → bundle_of m given ≡ ok cs
    → cs ≡ distinct_certificates m [] given
unfolding bundle_of pem_bundle
bundle_of-ok m given cs h = by_list (distinct_certificates m [] given) (ground arith)
  where
    by_list :
        (ds : List Certificate)
        → (elim ds as (λ _. Result (List Certificate)) [
          | [] ↦ raise failure
          | ◌∷◌ c rest ↦ ok (c ∷ rest)
        ])
          ≡ ok cs
        → cs ≡ ds
    by_list [] e = absurd (ground arith)
    by_list (d ∷ ds) e = sym (ok-injective e)

has-append :
    (m : Machine) (print : String) (xs ys : List Certificate)
    → has_fingerprint m print (xs ++ ys)
      ≡ (has_fingerprint m print xs || has_fingerprint m print ys)
unfolding has_fingerprint contains
has-append m print [] ys = refl
has-append m print (x ∷ xs) ys = ground (arith, has-append m print xs ys)

-- What the bundle of some certificates holds.
bundle_of-prints :
    (m : Machine) (given cs : List Certificate) (print : String)
    → bundle_of m given ≡ ok cs
    → (has_fingerprint m print cs ≡ has_fingerprint m print given)
      × (distinct (map m.fingerprint cs) ≡ true)
unfolding contains
bundle_of-prints m given cs print h =
    let same = bundle_of-ok m given cs h in
    let kept = distinct-has m [] given print in
    (
      ap (has_fingerprint m print) same ∙ ground (arith, kept),
      ap (λ ds. distinct (map m.fingerprint ds)) same ∙ distinct-distinct m [] given,
    )

all-IsCa : (m : Machine) (cs : List Certificate) → all (is_ca_certificate m) cs ≡ true → All IsCa cs
all-IsCa m [] h = tt
all-IsCa m (c ∷ cs) h = (is_ca_certificate-IsCa m c (ground arith), all-IsCa m cs (ground arith))

bundle_of-IsCa :
    (m : Machine) (given cs : List Certificate) → bundle_of m given ≡ ok cs → All IsCa given
unfolding bundle_of
bundle_of-IsCa m given cs h = all-IsCa m given (ground arith)

pem_bundle-reads :
    (m : Machine) (given cs : List Certificate)
    → pem_bundle m given ≡ ok cs
    → certificates_in m (bundle cs) ≡ some cs
unfolding pem_bundle
pem_bundle-reads m given cs h = by_list (distinct_certificates m [] given) h
  where
    by_list :
        (ds : List Certificate)
        → (elim ds as (λ _. Result (List Certificate)) [
          | [] ↦ raise failure
          | ◌∷◌ c rest ↦ ok (c ∷ rest)
        ])
          ≡ ok cs
        → certificates_in m (bundle cs) ≡ some cs
    by_list [] e = absurd (ground arith)
    by_list (d ∷ ds) e =
        ap (λ es. certificates_in m (bundle es)) (sym (ok-injective e)) ∙ ap some (ok-injective e)

bundle_of-reads :
    (m : Machine) (given cs : List Certificate)
    → bundle_of m given ≡ ok cs
    → certificates_in m (bundle cs) ≡ some cs
unfolding bundle_of
bundle_of-reads m given cs h = pem_bundle-reads m given cs (ground arith)

-- A file that holds the bundle counts its certificates.
certificate_count-bundle :
    (m : Machine) (path : String) (files : Files) (cs : List Certificate)
    → get path files ≡ some (bundle cs)
    → certificates_in m (bundle cs) ≡ some cs
    → certificate_count m path files ≡ (ok (length cs), files)
unfolding certificate_count read_certificate_bundle existing
certificate_count-bundle m path files cs there reads = rw (there, reads) refl

-- What the old file and the new file give together.
abbrev IsUnion : Machine → String → String → Files → List Certificate → String → Type 0
IsUnion m existing_path new_path files cs print =
    (old : List Certificate) × (new : List Certificate) × (existing m (m.resolve_path existing_path)
        files
      ≡ ok (bundle old))
    × (existing m (m.resolve_path new_path) files ≡ ok (bundle new))
    × (has_fingerprint m print cs ≡ (has_fingerprint m print old || has_fingerprint m print new))
    × (distinct (map m.fingerprint cs) ≡ true)
    × All IsCa (old ++ new)

staged-IsUnion :
    (m : Machine) (existing_path new_path app_path : String) (overwrite : Bool) (files : Files)
    (cs : List Certificate) (print : String)
    → staged m existing_path new_path app_path overwrite files ≡ ok cs
    → (certificates_in m (bundle cs) ≡ some cs) × IsUnion m existing_path new_path files cs print
unfolding staged
staged-IsUnion m existing_path new_path app_path overwrite files cs print h =
    elim (Result-cases (read_certificate_bundle m (m.resolve_path existing_path) files)) [
      | inl no_old ↦ absurd (ground arith)
      | inr old ↦ elim (Result-cases (read_certificate_bundle m (m.resolve_path new_path) files)) [
        | inl no_new ↦ absurd (ground arith)
        | inr new ↦
            let given = old.0 ++ new.0 in
            let bundled : bundle_of m given ≡ ok cs = ground arith in
            let (prints, apart) = bundle_of-prints m given cs print bundled in
            (
              bundle_of-reads m given cs bundled,
              (
                old.0,
                new.0,
                read_certificate_bundle-ok m (m.resolve_path existing_path) files old.0 old.1,
                read_certificate_bundle-ok m (m.resolve_path new_path) files new.0 new.1,
                prints ∙ has-append m print old.0 new.0,
                apart,
                bundle_of-IsCa m given cs bundled,
              ),
            )
      ]
    ]

-- After a staged rotation the trust file holds a bundle which has a certificate with a fingerprint
-- exactly if the old file or the new one had, and no fingerprint twice; all certificates of both
-- files are CAs, and the answer is the number of certificates in the bundle.
pub stage_root_ca_rotation-bundle :
    (m : Machine) (existing_path new_path app_path : String) (overwrite : Bool) (files : Files)
    (n : ℕ) (print : String)
    → (stage_root_ca_rotation m existing_path new_path app_path overwrite files).0 ≡ ok n
    → (cs : List Certificate) × (get
          (m.resolve_path app_path)
          (stage_root_ca_rotation m existing_path new_path app_path overwrite files).1
        ≡ some (bundle cs))
      × (n ≡ length cs)
      × (old : List Certificate) × (new : List Certificate) × (existing m
            (m.resolve_path existing_path)
            files
          ≡ ok (bundle old))
      × (existing m (m.resolve_path new_path) files ≡ ok (bundle new))
      × (has_fingerprint m print cs ≡ (has_fingerprint m print old || has_fingerprint m print new))
      × (distinct (map m.fingerprint cs) ≡ true)
      × All IsCa (old ++ new)
unfolding stage_root_ca_rotation
stage_root_ca_rotation-bundle m existing_path new_path app_path overwrite files n print h =
    let target = m.resolve_path app_path in
    let result = staged m existing_path new_path app_path overwrite files in
    let done = write_if_ok m target bundle result files in
    elim (Result-cases done.0) [
      | inl failed ↦ absurd (ground arith)
      | inr (cs, wrote) ↦
          let held = write_if_ok-written m target bundle result files cs wrote in
          let (reads, (old, new, old_read, new_read, union, apart, roots)) =
            staged-IsUnion m existing_path new_path app_path overwrite files cs print
              (write_if_ok-ok m target bundle result files cs wrote) in
          let counted = certificate_count-bundle m target done.1 cs held reads in
          let whole =
            ap (λ r. continue r (λ _. certificate_count m target) done.1) wrote ∙ counted in
          let files_after = ap (λ t. get target t.1) whole ∙ held in
          (
            cs,
            files_after,
            ok-injective (sym h ∙ ap (λ t. t.0) whole),
            old,
            new,
            old_read,
            new_read,
            union,
            apart,
            roots,
          )
    ]

-- The bundle after the rotation; the answer counts the certificates that were read.
pub finalize_root_ca_rotation-bundle :
    (m : Machine) (new_path app_path : String) (overwrite : Bool) (files : Files) (n : ℕ)
    (print : String)
    → (finalize_root_ca_rotation m new_path app_path overwrite files).0 ≡ ok n
    → (cs : List Certificate) × (new : List Certificate) × (get
          (m.resolve_path app_path)
          (finalize_root_ca_rotation m new_path app_path overwrite files).1
        ≡ some (bundle cs))
      × (existing m (m.resolve_path new_path) files ≡ ok (bundle new))
      × (n ≡ length new)
      × (has_fingerprint m print cs ≡ has_fingerprint m print new)
      × (distinct (map m.fingerprint cs) ≡ true)
      × All IsCa new
unfolding finalize_root_ca_rotation finalized
finalize_root_ca_rotation-bundle m new_path app_path overwrite files n print h =
    let target = m.resolve_path app_path in
    let content : List Certificate × List Certificate → Content = λ p. bundle p.1 in
    let result = finalized m new_path app_path overwrite files in
    elim (Result-cases (write_if_ok m target content result files).0) [
      | inl failed ↦ absurd (ground arith)
      | inr (p, wrote) ↦
          let held = write_if_ok-written m target content result files p wrote in
          let final = write_if_ok-ok m target content result files p wrote in
          elim (Result-cases (read_certificate_bundle m (m.resolve_path new_path) files)) [
            | inl no_new ↦ absurd (ground arith)
            | inr new ↦ elim (Result-cases (bundle_of m new.0)) [
              | inl no_bundle ↦ absurd (ground arith)
              | inr cs ↦
                  let (prints, apart) = bundle_of-prints m new.0 cs.0 print cs.1 in
                  let same : (new.0, cs.0) ≡ p = ground arith in
                  (
                    cs.0,
                    new.0,
                    ground arith,
                    read_certificate_bundle-ok m (m.resolve_path new_path) files new.0 new.1,
                    ground arith,
                    prints,
                    apart,
                    bundle_of-IsCa m new.0 cs.0 cs.1,
                  )
            ]
          ]
    ]
