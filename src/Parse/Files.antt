-- ===== src/Parse/Files.antt =====
-- src/provider.rs: which files of a directory give providers, and what a fetched page gives.
use proxybroker_rs.Broker.Grab.{Candidate}
use proxybroker_rs.Parse.Extract.{Patterns, ProviderSpec, extract}
use proxybroker_rs.Parse.Found.{gives}
use proxybroker_rs.Parse.Scan.{Regexes}
use proxybroker_rs.Prelude.{
  Bool, Bool-cases, In, In-keep, List, Option, [], ap, arith, false, if◌then◌else◌, inl, inr, keep,
  keep-In, none, not, refl, some, subst, sym, true, ◌&&◌, ◌||◌, ◌↔◌, ◌∙◌, ◌∷◌, ◌≡◌, ◌⊎◌,
}
use proxybroker_rs.Prelude.Equality.{list_eq, nat_eq, ◌==◌}
use proxybroker_rs.Server.Requests.{IpText, frontend_eq}
use proxybroker_rs.Text.{Text, starts_with, text}

-- A file: its path, its extension and its name if they are text, and what is in it if it can be
-- read.
pub record DirEntry : Type 0 where
  pub path : Text
  pub extension : Option Text
  pub file_name : Option Text
  pub content : Option Text

-- The order of two paths, and the reading of a specification, by libraries.
pub record Files : Type 0 where
  pub path_leb : Text → Text → Bool
  pub parse_spec : Text → Option ProviderSpec

abbrev pub is_data_ext : Option Text → Bool
is_data_ext none = false
is_data_ext (some e) = e == text "yaml" || e == text "yml" || e == text "json"

abbrev pub is_enabled : Option Text → Bool
is_enabled none = false
is_enabled (some n) = not (starts_with (text "_") n)

abbrev pub is_config : DirEntry → Bool
is_config e = is_data_ext e.extension && is_enabled e.file_name

-- A specification of a kind that is supported.
abbrev pub supported : Option ProviderSpec → Option ProviderSpec
supported none = none
supported (some spec) = elim spec.kind [
  | none ↦ some spec
  | some k ↦ if k == text "simple" then some spec else none
]

module _ ⦃l : Files⦄ where
  unfoldable pub insert_entry : DirEntry → List DirEntry → List DirEntry
  insert_entry e [] = e ∷ []
  insert_entry e (d ∷ ds) =
      let later = d ∷ insert_entry e ds in if l.path_leb e.path d.path then e ∷ d ∷ ds else later

  -- `paths.sort()`.
  unfoldable pub sort_entries : List DirEntry → List DirEntry
  unfolding insert_entry
  sort_entries [] = []
  sort_entries (e ∷ es) = insert_entry e (sort_entries es)

  abbrev pub spec_in : Option Text → Option ProviderSpec
  spec_in none = none
  spec_in (some s) = supported (l.parse_spec s)

  abbrev with_spec : Option ProviderSpec → List ProviderSpec → List ProviderSpec
  with_spec none specs = specs
  with_spec (some s) specs = s ∷ specs

  unfoldable pub specs_of : List DirEntry → List ProviderSpec
  specs_of [] = []
  specs_of (e ∷ es) = with_spec (spec_in e.content) (specs_of es)

  -- `load_provider_dir`; `none` is a directory that is not there or cannot be read.
  unfoldable pub load_provider_dir : Option (List DirEntry) → List ProviderSpec
  unfolding specs_of sort_entries starts_with
  load_provider_dir none = []
  load_provider_dir (some es) = specs_of (sort_entries (keep is_config es))

-- `fetch`, from what the request gives.
unfoldable pub fetch :
    ⦃t : IpText⦄ ⦃x : Regexes⦄ ⦃r : Patterns⦄ → ProviderSpec → Option Text → List Candidate
unfolding extract
fetch spec none = []
fetch spec (some body) = extract spec body

module _ ⦃l : Files⦄ where
  abbrev GivesSpec : ProviderSpec → DirEntry → Type 0
  GivesSpec s e = (is_config e ≡ true) × (spec_in e.content ≡ some s)

  insert_entry-In :
      (d e : DirEntry) (es : List DirEntry) → In d (insert_entry e es) ↔ ((d ≡ e) ⊎ In d es)
  unfolding insert_entry
  insert_entry-In d e [] = (λ m. m, λ m. m)
  insert_entry-In d e (x ∷ es) = elim (Bool-cases (l.path_leb e.path x.path)) [
    | inl first ↦ rw first (λ m. m, λ m. m)
    | inr later ↦ rw later (ground (arith, insert_entry-In d e es))
  ]

  sort_entries-In : (d : DirEntry) (es : List DirEntry) → In d (sort_entries es) ↔ In d es
  unfolding sort_entries
  sort_entries-In d [] = (λ m. m, λ m. m)
  sort_entries-In d (e ∷ es) =
      ground (arith, insert_entry-In d e (sort_entries es), sort_entries-In d es)

  with_spec-In :
      (s : ProviderSpec) (o : Option ProviderSpec) (specs : List ProviderSpec)
      → In s (with_spec o specs)
      → (o ≡ some s) ⊎ In s specs
  with_spec-In s none specs m = inr m
  with_spec-In s (some t) specs (inl same) = inl (ap some (sym same))
  with_spec-In s (some t) specs (inr m) = inr m

  In-with_spec :
      (s : ProviderSpec) (o : Option ProviderSpec) (specs : List ProviderSpec)
      → In s specs
      → In s (with_spec o specs)
  In-with_spec s none specs m = m
  In-with_spec s (some t) specs m = inr m

  specs_of-In :
      (s : ProviderSpec) (es : List DirEntry)
      → In s (specs_of es)
      → (e : DirEntry) × In e es × (spec_in e.content ≡ some s)
  unfolding specs_of
  specs_of-In s [] m = absurd m
  specs_of-In s (e ∷ es) m = elim (with_spec-In s (spec_in e.content) (specs_of es) m) [
    | inl here_it ↦ (e, inl refl, here_it)
    | inr later ↦ let (d, held, gives) = specs_of-In s es later in (d, inr held, gives)
  ]

  In-specs_of :
      (s : ProviderSpec) (es : List DirEntry) (e : DirEntry)
      → In e es
      → spec_in e.content ≡ some s
      → In s (specs_of es)
  unfolding specs_of
  In-specs_of s [] e m gives = absurd m
  In-specs_of s (d ∷ es) e (inl same) gives =
      subst (λ (o : Option ProviderSpec). In s (with_spec o (specs_of es)))
        (sym (ap (λ (x : DirEntry). spec_in x.content) (sym same) ∙ gives)) (inl refl)
  In-specs_of s (d ∷ es) e (inr m) gives =
      In-with_spec s (spec_in d.content) (specs_of es) (In-specs_of s es e m gives)

  -- A directory gives exactly the specifications of a supported kind of its YAML and JSON files whose
  -- name does not begin with an underscore; one bad file keeps no other from being read.
  pub load_provider_dir_lem :
      (es : List DirEntry) (s : ProviderSpec)
      → In s (load_provider_dir (some es)) ↔ ((e : DirEntry) × In e es × GivesSpec s e)
  unfolding load_provider_dir
  load_provider_dir_lem es s = (
    λ m.
        let (e, held, gives) = specs_of-In s (sort_entries (keep is_config es)) m in
        let (listed, good) =
          In-keep is_config e es ((sort_entries-In e (keep is_config es)).0 held) in
        (e, listed, (good, gives)),
    λ (e, listed, (good, gives)).
        In-specs_of s (sort_entries (keep is_config es)) e
          ((sort_entries-In e (keep is_config es)).1 (keep-In is_config e es listed good)) gives,
  )
