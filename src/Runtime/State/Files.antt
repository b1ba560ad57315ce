-- ===== src/Runtime/State/Files.antt =====
-- internal/runtime/state.go: Load and Save.
use Prim.Native.String.{◌++◌ as str_append}
use kube_ops_agent.Base.{
  if◌then◌else◌, lookup, insert, delete, ℕ, ◌/◌, String, Bool, false, not, Option, none, some, List,
}
use kube_ops_agent.Runtime.Config.{second}
use kube_ops_agent.Runtime.State.{SchedulerState, StatePersistence, empty_state}

-- What the operating system answers to the calls of one `Save`, in their order. A write that fails
-- may leave any text behind, or none.
pub record Outcome {ℓ} (Text : Type ℓ) : Type ℓ where
  pub mkdir_ok : Bool
  pub write_ok : Bool
  pub partial : Option Text
  pub rename_ok : Bool

pub data Error : Type 0 where
  not_exist read_failed unmarshal_failed marshal_failed mkdir_failed write_failed : Error
  rename_failed : Error

pub data Status : Type 0 where
  done : Status
  error : Error → Status

-- What `os.ReadFile` gives.
pub data ReadResult {ℓ} (Text : Type ℓ) : Type ℓ where
  content : Text → ReadResult Text
  failed : Error → ReadResult Text

abbrev pub tmp_path : String → String
tmp_path path = str_append path ".tmp"

module _ {ℓ} {Text : Type ℓ} where
  -- A missing file is the error that `os.IsNotExist` recognises.
  unfoldable pub read_file : String → List (String × Text) → ReadResult Text
  read_file path files = elim (lookup path files) [
    | none ↦ failed not_exist
    | some text ↦ content text
  ]

  -- What a write that fails leaves of the temporary file.
  unfoldable pub leave_partial : String → Option Text → List (String × Text) → List (String × Text)
  leave_partial tmp none files = files
  leave_partial tmp (some part) files = insert tmp part files

  -- From `os.MkdirAll` on.
  unfoldable pub write_state :
      Outcome Text
      → Text
      → StatePersistence
      → List (String × Text)
      → StatePersistence × List (String × Text) × Status
  write_state o text s files =
      let path = s.state_file in
      let tmp = tmp_path path in
      if not o.mkdir_ok
      then (s, files, error mkdir_failed)
      else if not o.write_ok
      then (s, leave_partial tmp o.partial files, error write_failed)
      else if not o.rename_ok
      then (s, delete tmp (insert tmp text files), error rename_failed)
      else (record s { dirty = false }, insert path text (delete tmp (insert tmp text files)), done)

module _ {ℓ} {Text : Type ℓ} (unmarshal : Text → Option SchedulerState) where
  unfoldable pub load_text : ReadResult Text → StatePersistence → StatePersistence × Status
  load_text (content text) s = elim (unmarshal text) [
    | none ↦ (s, error unmarshal_failed)
    | some loaded ↦ (record s { state = loaded }, done)
  ]
  load_text (failed not_exist) s = (record s { state = empty_state }, done)
  load_text (failed e) s = (s, error e)

  unfoldable pub load : ReadResult Text → StatePersistence → StatePersistence × Status
  unfolding load_text
  load r s = if s.persist_state then load_text r s else (record s { state = empty_state }, done)

module _ {ℓ} {Text : Type ℓ} (marshal : SchedulerState → Option Text) where
  unfoldable pub save :
      ℕ
      → Outcome Text
      → StatePersistence
      → List (String × Text)
      → StatePersistence × List (String × Text) × Status
  unfolding write_state
  save now o s files =
      let s' = record s { state = record s.state { last_saved = now / second } } in
      if s.persist_state
      then elim (marshal s'.state) [
        | none ↦ (s', files, error marshal_failed)
        | some text ↦ write_state o text s' files
      ]
      else (s, files, done)
