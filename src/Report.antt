-- ===== src/Report.antt =====
-- internal/report/report.go: Manager. The file system's answers, the time of a file's name and the
-- header's fields are arguments; `sort less` is sort.Slice with that comparison, and `P` stands for the
-- parts that the header's patterns find. Times are natural numbers.
pub mod Pruning
use Prim.Native.String as Str
use Prim.Native.String.{len, slice}
use kube_ops_agent.Base.{
  ltb, leb, ◌==◌, if◌then◌else◌, same, length, drop, All, join, ℕ, ◌+◌, ◌-◌, ◌/◌, String, ap, ite,
  Bool, true, not, ◌&&◌, ◌||◌, Option, none, some, List, [], ◌∷◌, ◌++◌, map,
}
use kube_ops_agent.Operations.{page}

pub record Manager : Type 0 where
  pub root : String
  pub max_reports : ℕ

abbrev pub new_manager : String → ℕ → Manager
new_manager root max_reports = record { root = root; max_reports = max_reports }

pub record Item (P : Type 0) : Type 0 where
  pub id : String
  pub filename : String
  pub created_at : ℕ
  pub path : String
  pub header : P
  pub size_bytes : ℕ

-- A file of the directory: its modification time and its size, if os.Stat answers, and its text, if
-- it can be read.
pub record File : Type 0 where
  pub name : String
  pub is_dir : Bool
  pub stat : Option (ℕ × ℕ)
  pub content : Option String

-- A value, or the text of an error.
pub data Result (A : Type 0) : Type 0 where
  ok : A → Result A
  err : String → Result A

-- `strings.HasSuffix` and `strings.TrimSuffix` for `.md`.
abbrev is_md : String → Bool
is_md name = leb 3 (len name) && same (slice name (len name - 3) (len name)) ".md"

abbrev without_md : String → String
without_md name = if is_md name then slice name 0 (len name - 3) else name

-- What the code calls: the time in a file's name, if it has one, the header of a text, `none` for a
-- text that is not read, of its first 4096 bytes, and filepath.Join.
pub record Outside (P : Type 0) : Type 0 where
  pub time_of : String → Option ℕ
  pub header_of : Option String → P
  pub join_path : String → String → String
  pub sort : (Item P → Item P → Bool) → List (Item P) → List (Item P)

-- `items[i].CreatedAt.After(items[j].CreatedAt)`
abbrev pub newer : {P : Type 0} → Item P → Item P → Bool
newer a b = ltb b.created_at a.created_at

module _ {P : Type 0} (out : Outside P) (m : Manager) where
  -- `parseTimestampFromFilename`
  abbrev time_or : String → ℕ → ℕ
  time_or name fallback = elim (out.time_of name) [ none ↦ fallback | some t ↦ t ]

  abbrev in_range : Option ℕ → Option ℕ → ℕ → Bool
  in_range start end t =
      elim start [ none ↦ true | some s ↦ leb s t ] && elim end [ none ↦ true | some e ↦ leb t e ]

  -- The item of a file, if it is listed.
  unfoldable pub item_of : Option ℕ → Option ℕ → File → Option (Item P)
  item_of start end f = if f.is_dir || not (is_md f.name) then none else elim f.stat [
    | none ↦ none
    | some (modified, size) ↦
        let t : ℕ = time_or f.name modified in
        if in_range start end t
        then some (record {
          id = without_md f.name;
          filename = f.name;
          created_at = t;
          path = out.join_path m.root f.name;
          header = out.header_of f.content;
          size_bytes = size;
        })
        else none
  ]

  unfoldable pub items_of : Option ℕ → Option ℕ → List File → List (Item P)
  unfolding item_of
  items_of start end [] = []
  items_of start end (f ∷ fs) =
      let rest = items_of start end fs in
      elim (item_of start end f) [ none ↦ rest | some it ↦ it ∷ rest ]

  -- `List`: a panic, or what it returns: the page, cut as GetHistory cuts it, and the number of all
  -- items. Limit and offset are not negative.
  unfoldable pub list :
      Result (List File) → ℕ → ℕ → Option ℕ → Option ℕ → Option (Result (List (Item P) × ℕ))
  unfolding items_of
  list (err e) limit offset start end = some (err e)
  list (ok files) limit offset start end =
      let items = out.sort newer (items_of start end files) in
      elim (page offset limit items) [ none ↦ none | some xs ↦ some (ok (xs, length items)) ]

  -- The paths that PruneIfNeeded removes, when it lists so many reports. `none` is a panic.
  unfoldable pub pruned_of : ℕ → Result (List File) → Option (List String)
  unfolding list
  pruned_of listed read =
      if m.max_reports == 0 then some [] else elim (list read listed 0 none none) [
        | none ↦ none
        | some (err e) ↦ some []
        | some (ok (items, total)) ↦
            if leb total m.max_reports
            then some []
            else some (map (λ it. it.path) (drop m.max_reports items))
      ]

  unfoldable pub pruned : Result (List File) → Option (List String)
  unfolding pruned_of
  pruned read = pruned_of 10000 read

  -- `Get`: `stat` and `read` are the answers for a path.
  unfoldable pub get :
      (String → Result (ℕ × ℕ))
      → (String → Result String)
      → (String → String)
      → String
      → Result (Item P × String)
  get stat read base_of id =
      let name : String = without_md id in
      let path : String = out.join_path m.root (Str.◌++◌ name ".md") in
      elim (stat path) [
        | err e ↦ err e
        | ok (modified, size) ↦ elim (read path) [
          | err e ↦ err e
          | ok text ↦ ok (
            record {
              id = name;
              filename = base_of path;
              created_at = time_or (base_of path) modified;
              path = path;
              header = out.header_of (some text);
              size_bytes = size;
            },
            text,
          )
        ]
      ]

  -- `Latest`
  unfoldable pub latest :
      Result (List File)
      → (String → Result (ℕ × ℕ))
      → (String → Result String)
      → (String → String)
      → Option (Result (Item P × String))
  unfolding list get
  latest read_dir stat read base_of = elim (list read_dir 1 0 none none) [
    | none ↦ none
    | some (err e) ↦ some (err e)
    | some (ok (items, total)) ↦ elim items [
      | [] ↦ some (err "file does not exist")
      | it ∷ _ ↦ some (get stat read base_of it.id)
    ]
  ]

  -- `Save`: the files that are written, and those that are removed then. `filename` is ReportFilename
  -- of the time; `made` and `written` are the errors of os.MkdirAll and os.WriteFile, `size` what
  -- os.Stat says, 0 for an error, and `after` the directory when it is read again. The outer `none` is
  -- a panic.
  unfoldable pub save :
      ℕ
      → String
      → Option String
      → Option String
      → ℕ
      → Result (List File)
      → String
      → Option (Result (Item P × List String))
  unfolding pruned
  save now filename made written size after content = elim made [
    | some e ↦ some (err e)
    | none ↦ elim written [
      | some e ↦ some (err e)
      | none ↦ elim (pruned after) [
        | none ↦ none
        | some removed ↦ some (
            ok (
              record {
                id = without_md filename;
                filename = filename;
                created_at = now;
                path = out.join_path m.root filename;
                header = out.header_of (some content);
                size_bytes = size;
              },
              removed,
            ))
      ]
    ]
  ]
