-- ===== src/Daemon/Start.antt =====
-- The configuration files of the daemon: what they leave in the configuration, and how the daemon
-- gets to its loop.
use gnu_halevt.Base.{
  ℕ, true, false, List, [], ◌∷◌, ◌++◌, map, Option, none, some, Bytes, codes, str_eq, ◌≡◌, refl,
  sym, ap, ◌∙◌, arith, inl, inr, Bool-cases, if◌then◌else◌, ◌≢◌, ◌⊎◌, str_eq_iff,
}
use gnu_halevt.Expr.{BoolStuff}
use gnu_halevt.Config.{Config}
use gnu_halevt.Config.Xml.{Node, Nodes, element, text_node, comment_node, parse_config}
use gnu_halevt.Config.Spec.{Entry, entries, onto, IsExtended}
use gnu_halevt.Config.Roots.{IsExtended-trans}
use gnu_halevt.Config.Parse.{parse_config-IsExtended}
use gnu_halevt.Daemon.Defs.{read_conffile, System, Daemon, Exit, going, exited, M, pure, and_then}
use gnu_halevt.Daemon.{
  Options, become, change_identity, parse_conffile, parse_conffiles, choose_conffiles,
  load_conffiles, load_config, run_with,
}
use mathlib.Core.Path.{subst}
use gnu_halevt.Daemon.Keeps.{behind_identity}

-- The entries of a document that is a Configuration.
abbrev pub document_entries : Option (Option Node) → Option (List Entry)
document_entries (some (some (element name attributes ns))) =
    if str_eq name (codes "Configuration") then some (entries ns) else none
document_entries _ = none

abbrev pub append_entries : Option (List Entry) → Option (List Entry) → Option (List Entry)
append_entries (some es) (some fs) = some (es ++ fs)
append_entries _ _ = none

module _ (s : System) where
  -- The entries of all the files in their order, if each of them is a Configuration.
  abbrev pub files_entries : List Bytes → Option (List Entry)
  files_entries [] = some []
  files_entries (file ∷ files) =
      append_entries (document_entries (s.document file)) (files_entries files)

module _ {Tree : Type 0} (boolstuff : BoolStuff Tree) where
  parse_config-entries :
      (document : Option (Option Node)) (es : List Entry) (c : Config Tree)
      → document_entries document ≡ some es
      → IsExtended boolstuff c es (parse_config boolstuff document c).0
        × ((parse_config boolstuff document c).1 ≡ true)
  parse_config-entries none es c h = absurd cc
  parse_config-entries (some none) es c h = absurd cc
  parse_config-entries (some (some text_node)) es c h = absurd cc
  parse_config-entries (some (some comment_node)) es c h = absurd cc
  parse_config-entries (some (some (element name attributes ns))) es c h =
      elim (Bool-cases (str_eq name (codes "Configuration"))) [
        | inl e ↦
            let same : entries ns ≡ es = ground arith in
            rw ((str_eq_iff name (codes "Configuration")).0 e, ← same)
              (parse_config-IsExtended boolstuff c attributes ns)
        | inr e ↦ absurd (other name ns es e h)
      ]
    where
      other :
          (name : Bytes) (ns : Nodes) (es : List Entry)
          → str_eq name (codes "Configuration") ≡ false
          → (if str_eq name (codes "Configuration") then some (entries ns) else none) ≢ some es
      other name ns es e h = ground arith

  parse_config-no_entries :
      (document : Option (Option Node)) (c : Config Tree)
      → document_entries document ≡ none
      → (parse_config boolstuff document c).1 ≡ false
  unfolding parse_config
  parse_config-no_entries none c h = refl
  parse_config-no_entries (some none) c h = refl
  parse_config-no_entries (some (some text_node)) c h = refl
  parse_config-no_entries (some (some comment_node)) c h = refl
  parse_config-no_entries (some (some (element name attributes ns))) c h = ground arith

pub onto-append {ℓ} :
    {A : Type ℓ} (xs ys acc : List A) → onto (xs ++ ys) acc ≡ onto ys (onto xs acc)
onto-append [] ys acc = refl
onto-append (x ∷ xs) ys acc = onto-append xs ys (x ∷ acc)

append_entries-some :
    (a b : Option (List Entry)) (es : List Entry)
    → append_entries a b ≡ some es
    → (fs gs : List Entry) × (a ≡ some fs) × (b ≡ some gs) × (es ≡ fs ++ gs)
append_entries-some none b es h = absurd cc
append_entries-some (some fs) none es h = absurd cc
append_entries-some (some fs) (some gs) es h = (fs, gs, refl, refl, cc)

append_entries-none :
    (a b : Option (List Entry)) → append_entries a b ≡ none → (a ≡ none) ⊎ (b ≡ none)
append_entries-none none b h = inl refl
append_entries-none (some fs) none h = inr refl
append_entries-none (some fs) (some gs) h = absurd cc

module _ {Tree : Type 0} (s : System) (boolstuff : BoolStuff Tree) where
  -- The daemon after a file.
  abbrev after_file : Bytes → Daemon Tree → Daemon Tree
  after_file file d = record {
    trace = read_conffile file ∷ d.trace;
    config = (parse_config boolstuff (s.document file) d.config).0;
  }

  parse_conffile_accepted :
      (file : Bytes) (d : Daemon Tree)
      → (parse_config boolstuff (s.document file) d.config).1 ≡ true
      → parse_conffile s boolstuff file d ≡ (going tt, after_file file d)
  unfolding parse_conffile
  parse_conffile_accepted file d ok = rw ok refl

  parse_conffile_refused :
      (file : Bytes) (d : Daemon Tree)
      → (parse_config boolstuff (s.document file) d.config).1 ≡ false
      → parse_conffile s boolstuff file d ≡ (exited 1, after_file file d)
  unfolding parse_conffile
  parse_conffile_refused file d no_result = rw no_result refl

  -- All files are read in their order, and the configuration gains what their elements stand for.
  pub parse_conffiles-IsExtended :
      (files : List Bytes) (es : List Entry) (d : Daemon Tree)
      → files_entries s files ≡ some es
      → (c : Config Tree) × IsExtended boolstuff d.config es c
        × (parse_conffiles s boolstuff files d
            ≡ (going tt, record { trace = onto (map read_conffile files) d.trace; config = c }))
  unfolding parse_conffiles
  parse_conffiles-IsExtended [] es d h =
      let none_left : [] ≡ es = cc in
      (d.config, rw (← none_left) (refl, refl, refl, refl, refl), refl)
  parse_conffiles-IsExtended (file ∷ files) es d h =
      let document = s.document file in
      let (fs, gs, here, there, is) =
        append_entries-some (document_entries document) (files_entries s files) es h in
      let (extended, ok) = parse_config-entries boolstuff document fs d.config here in
      let d' = after_file file d in
      let (c, extended', e) = parse_conffiles-IsExtended files gs d' there in
      (
        c,
        subst (λ l. IsExtended boolstuff d.config l c) (sym is)
            (IsExtended-trans boolstuff d.config d'.config c fs gs extended extended'),
        ap (and_then (λ _. parse_conffiles s boolstuff files)) (parse_conffile_accepted file d ok)
            ∙ e,
      )

  parse_conffiles_refused :
      (files : List Bytes) (d : Daemon Tree)
      → files_entries s files ≡ none
      → (parse_conffiles s boolstuff files d).0 ≡ exited 1
  unfolding parse_conffiles
  parse_conffiles_refused [] d h = absurd cc
  parse_conffiles_refused (file ∷ files) d h =
      let rest = and_then (λ _. parse_conffiles s boolstuff files) in
      elim (Bool-cases (parse_config boolstuff (s.document file) d.config).1) [
        | inl ok ↦
            ap (λ r. (rest r).0) (parse_conffile_accepted file d ok)
            ∙ elim (append_entries-none (document_entries (s.document file)) (files_entries s files)
                h) [
                  | inl e ↦ absurd (
                      ground
                        (arith, parse_config-no_entries boolstuff (s.document file) d.config e))
                  | inr e ↦ parse_conffiles_refused files (after_file file d) e
                ]
        | inr no_result ↦ ap (λ r. (rest r).0) (parse_conffile_refused file d no_result)
      ]

  abbrev EndsWithOne : {A : Type 0} → Exit A × Daemon Tree → Type 0
  EndsWithOne (going a, d) = Unit
  EndsWithOne (exited n, d) = n ≡ 1

  become-EndsWithOne :
      (user group : Option ℕ) (d : Daemon Tree) → EndsWithOne (become s user group d)
  unfolding become
  become-EndsWithOne none group d = refl
  become-EndsWithOne (some uid) none d = refl
  become-EndsWithOne (some uid) (some gid) d = ground arith

  and_then-pure-EndsWithOne :
      {A B : Type 0} (b : B) (r : Exit A × Daemon Tree)
      → EndsWithOne r
      → EndsWithOne (and_then (λ _. pure b) r)
  and_then-pure-EndsWithOne b (going a, d) h = tt
  and_then-pure-EndsWithOne b (exited n, d) h = h

  change_identity-EndsWithOne :
      (o : Options) (d : Daemon Tree) → EndsWithOne (change_identity s o d)
  unfolding change_identity
  change_identity-EndsWithOne o d = elim (Bool-cases s.is_root) [
    | inl root ↦ rw root (and_then-pure-EndsWithOne _ _ (become-EndsWithOne _ _ d))
    | inr user ↦ rw user tt
  ]

  load_conffiles_refused :
      (files : List Bytes) (d : Daemon Tree)
      → files_entries s files ≡ none
      → (load_conffiles s boolstuff (some files) d).0 ≡ exited 1
  unfolding load_conffiles
  load_conffiles_refused [] d h = refl
  load_conffiles_refused (file ∷ files) d h = parse_conffiles_refused (file ∷ files) d h

  load_config_refused :
      (o : Options) (files : List Bytes) (d : Daemon Tree)
      → o.halevt_report ≡ false
      → choose_conffiles s boolstuff o.conffiles ≡ some files
      → files_entries s files ≡ none
      → (load_config s boolstuff o d).0 ≡ exited 1
  unfolding load_config
  load_config_refused o files d report chosen refused =
      rw (report, chosen) (load_conffiles_refused files d refused)

  exited_before :
      {A B : Type 0} (f : A → M Tree B) (r : Exit A × Daemon Tree)
      → r.0 ≡ exited 1
      → (and_then f r).0 ≡ exited 1
  exited_before f (going a, d) h = absurd cc
  exited_before f (exited n, d) h = cc

  -- Where one of the files is no Configuration the daemon ends with status 1, whatever else goes
  -- well.
  pub run_with_refused :
      (o : Options) (files : List Bytes) (d : Daemon Tree)
      → o.halevt_report ≡ false
      → choose_conffiles s boolstuff o.conffiles ≡ some files
      → files_entries s files ≡ none
      → (run_with s boolstuff o d).0 ≡ exited 1
  unfolding run_with
  run_with_refused o files d report chosen refused =
      go (change_identity s o d) (change_identity-EndsWithOne o d)
    where
      go :
          (r : Exit (Option Bytes) × Daemon Tree)
          → EndsWithOne r
          → (and_then (behind_identity s boolstuff o) r).0 ≡ exited 1
      go (going pid_file, e) h =
          exited_before _ (load_config s boolstuff o e)
            (load_config_refused o files e report chosen refused)
      go (exited n, e) h = ap exited h
