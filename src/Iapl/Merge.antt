-- ===== src/Iapl/Merge.antt =====
-- Loading policy documents (internal/iapl/policy.go): files are merged as if all their documents
-- stood in one list, and two RBAC definitions are refused within one file only.
use mathlib.Core.List.{flat_map, flatten, foldl-append}
use permissions_api.Base.{
  ℕ, ◌+◌, ◌≤◌, ◌<◌, ◌≡◌, refl, sym, ◌∙◌, ap, Option, none, some, List, [], ◌∷◌, ◌++◌, foldl, arith,
  map, append-nil, append_assoc, All,
}
use permissions_api.Iapl.Document.{
  Rbac, PolicyDocument, empty_document, later_rbac, merge_with_policy_document, ok, err, Decoded,
  eof, next, merge_file, load_policy_document_from_file, load_files_from,
  load_policy_document_from_files, duplicate_rbac_definition,
}

later_rbac_assoc :
    (a b c : Option Rbac) → later_rbac (later_rbac a b) c ≡ later_rbac a (later_rbac b c)
later_rbac_assoc a b none = refl
later_rbac_assoc a b (some r) = refl

later_rbac-none : (a : Option Rbac) → later_rbac none a ≡ a
later_rbac-none none = refl
later_rbac-none (some r) = refl

merge_assoc :
    (p q r : PolicyDocument)
    → merge_with_policy_document (merge_with_policy_document p q) r
      ≡ merge_with_policy_document p (merge_with_policy_document q r)
unfolding merge_with_policy_document
merge_assoc p q r = λ i. record {
  resource_types = append_assoc p.resource_types q.resource_types r.resource_types i;
  unions = append_assoc p.unions q.unions r.unions i;
  actions = append_assoc p.actions q.actions r.actions i;
  action_bindings = append_assoc p.action_bindings q.action_bindings r.action_bindings i;
  rbac = later_rbac_assoc p.rbac q.rbac r.rbac i;
}

merge_empty_right : (p : PolicyDocument) → merge_with_policy_document p empty_document ≡ p
unfolding merge_with_policy_document
merge_empty_right p = λ i. record {
  resource_types = append-nil p.resource_types i;
  unions = append-nil p.unions i;
  actions = append-nil p.actions i;
  action_bindings = append-nil p.action_bindings i;
  rbac = p.rbac;
}

merge_empty_left : (p : PolicyDocument) → merge_with_policy_document empty_document p ≡ p
unfolding merge_with_policy_document
merge_empty_left p = λ i. record {
  resource_types = p.resource_types;
  unions = p.unions;
  actions = p.actions;
  action_bindings = p.action_bindings;
  rbac = later_rbac-none p.rbac i;
}

-- All documents, one after the other.
abbrev pub merge_all : PolicyDocument → List PolicyDocument → PolicyDocument
merge_all = foldl merge_with_policy_document

merge_all_lem :
    (p : PolicyDocument) (ds : List PolicyDocument)
    → merge_all p ds ≡ merge_with_policy_document p (merge_all empty_document ds)
merge_all_lem p [] = sym (merge_empty_right p)
merge_all_lem p (d ∷ ds) =
    merge_all_lem (merge_with_policy_document p d) ds
    ∙ (merge_assoc p d (merge_all empty_document ds)
        ∙ ap (merge_with_policy_document p)
            (sym (ap (λ e. merge_all e ds) (merge_empty_left d) ∙ merge_all_lem d ds)))

-- The last definition of RBAC, if there is one.
abbrev pub last_rbac : List PolicyDocument → Option Rbac
last_rbac [] = none
last_rbac (d ∷ ds) = elim (last_rbac ds) [ some r ↦ some r | none ↦ d.rbac ]

-- The lists of all documents in their order, and the last definition of RBAC.
abbrev pub joined : List PolicyDocument → PolicyDocument
joined ds = record {
  resource_types = flat_map (λ d. PolicyDocument.resource_types d) ds;
  unions = flat_map (λ d. PolicyDocument.unions d) ds;
  actions = flat_map (λ d. PolicyDocument.actions d) ds;
  action_bindings = flat_map (λ d. PolicyDocument.action_bindings d) ds;
  rbac = last_rbac ds;
}

later_rbac_lem : (a b : Option Rbac) → later_rbac a b ≡ (elim b [ some r ↦ some r | none ↦ a ])
later_rbac_lem a none = refl
later_rbac_lem a (some r) = refl

joined-cons :
    (d : PolicyDocument) (ds : List PolicyDocument)
    → merge_with_policy_document d (joined ds) ≡ joined (d ∷ ds)
unfolding merge_with_policy_document flat_map
joined-cons d ds = λ i. record (joined (d ∷ ds)) { rbac = later_rbac_lem d.rbac (last_rbac ds) i }

merge_all-joined : (ds : List PolicyDocument) → merge_all empty_document ds ≡ joined ds
unfolding flat_map
merge_all-joined [] = refl
merge_all-joined (d ∷ ds) =
    ap (λ p. merge_all p ds) (merge_empty_left d)
    ∙ merge_all_lem d ds
    ∙ ap (merge_with_policy_document d) (merge_all-joined ds)
    ∙ joined-cons d ds

-- How many documents define RBAC.
abbrev pub rbac_count : Option Rbac → ℕ
rbac_count none = 0
rbac_count (some _) = 1

abbrev pub rbacs : List PolicyDocument → ℕ
rbacs [] = 0
rbacs (d ∷ ds) = rbac_count d.rbac + rbacs ds

rbacs-append : (ds es : List PolicyDocument) → rbacs (ds ++ es) ≡ rbacs ds + rbacs es
rbacs-append [] es = omega arith
rbacs-append (d ∷ ds) es = omega (arith, rbacs-append ds es)

-- A file that decodes without a fault.
abbrev pub decoded : List PolicyDocument → Decoded
decoded [] = eof
decoded (d ∷ ds) = next d (decoded ds)

rbac_of-merge :
    (p q : PolicyDocument) → (merge_with_policy_document p q).rbac ≡ later_rbac p.rbac q.rbac
unfolding merge_with_policy_document
rbac_of-merge p q = refl

-- A file with at most one RBAC definition is the merge of its documents.
merge_file_lem :
    (p : PolicyDocument) (ds : List PolicyDocument)
    → rbac_count p.rbac + rbacs ds ≤ 1
    → merge_file p (decoded ds) ≡ ok (merge_all p ds)
unfolding merge_file
merge_file_lem p [] h = refl
merge_file_lem p (d ∷ ds) h =
    ground (arith, merge_file_lem (merge_with_policy_document p d) ds, rbac_of-merge p d)

-- A file with two RBAC definitions is refused, whatever follows them.
merge_file-duplicate :
    (p : PolicyDocument) (ds : List PolicyDocument)
    → 1 < rbac_count p.rbac + rbacs ds
    → merge_file p (decoded ds) ≡ err duplicate_rbac_definition
unfolding merge_file
merge_file-duplicate p [] h = ground arith
merge_file-duplicate p (d ∷ ds) h =
    ground (arith, merge_file-duplicate (merge_with_policy_document p d) ds, rbac_of-merge p d)

file_lem :
    (ds : List PolicyDocument)
    → rbacs ds ≤ 1
    → load_policy_document_from_file (some (decoded ds)) ≡ ok (merge_all empty_document ds)
unfolding load_policy_document_from_file
file_lem ds h = merge_file_lem empty_document ds (omega arith)

file-duplicate :
    (ds : List PolicyDocument)
    → 1 < rbacs ds
    → load_policy_document_from_file (some (decoded ds)) ≡ err duplicate_rbac_definition
unfolding load_policy_document_from_file
file-duplicate ds h = merge_file-duplicate empty_document ds (omega arith)

load_files_from_lem :
    (p : PolicyDocument) (files : List (List PolicyDocument))
    → All (λ ds. rbacs ds ≤ 1) files
    → load_files_from p (map (λ ds. some (decoded ds)) files) ≡ ok (merge_all p (flatten files))
unfolding load_files_from flatten
load_files_from_lem p [] h = refl
load_files_from_lem p (ds ∷ files) h =
    let rest = load_files_from_lem (merge_all p ds) files h.1 in
    rw (file_lem ds h.0, load_files_from)
      (rw (sym (merge_all_lem p ds))
        (rest ∙ ap ok (sym (foldl-append merge_with_policy_document p ds (flatten files)))))

-- If each file decodes and defines RBAC at most once, loading the files gives one document with the
-- lists of all their documents, joined in order, and the last of their RBAC definitions.
pub load_policy_document_from_files_lem :
    (files : List (List PolicyDocument))
    → All (λ ds. rbacs ds ≤ 1) files
    → load_policy_document_from_files (map (λ ds. some (decoded ds)) files)
      ≡ ok (joined (flatten files))
unfolding load_policy_document_from_files
load_policy_document_from_files_lem files h =
    load_files_from_lem empty_document files h ∙ ap ok (merge_all-joined (flatten files))

-- Documents with one RBAC definition, followed by documents with another, are an error in one file
-- and are merged without an error if they are two files.
pub duplicate_rbac_lem :
    (ds es : List PolicyDocument)
    → rbacs ds ≡ 1
    → rbacs es ≡ 1
    → (load_policy_document_from_files (some (decoded (ds ++ es)) ∷ [])
        ≡ err duplicate_rbac_definition)
      × (load_policy_document_from_files (some (decoded ds) ∷ some (decoded es) ∷ [])
          ≡ ok (joined (ds ++ es)))
unfolding load_policy_document_from_files load_files_from flatten
duplicate_rbac_lem ds es h k = (
  rw (file-duplicate (ds ++ es) (omega (arith, rbacs-append ds es)), load_files_from),
  load_files_from_lem empty_document (ds ∷ es ∷ []) (omega arith, (omega arith, tt))
      ∙ ap (λ x. ok (merge_all empty_document (ds ++ x))) (append-nil es)
      ∙ ap ok (merge_all-joined (ds ++ es)),
)
