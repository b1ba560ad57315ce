-- ===== src/Runtime/State/Saves.antt =====
-- Save writes the state file whole or not at all, and Load reads back what was saved.
use Prim.Native.String.{[] as empty, ◌∷◌ as cons}
use text.Mathlib.TextLemmas.{nil-append, cons-append}
use kube_ops_agent.Base.{
  Option-cases, str_dec, lookup, insert, delete, lookup-insert, lookup-delete, ℕ, ◌/◌, String, ◌≡◌,
  refl, ap, ◌∙◌, ◌≢◌, ◌⊎◌, inl, inr, if_pos, if_neg, true, false, Option, none, some, List, arith,
}
use kube_ops_agent.Runtime.Config.{second}
use kube_ops_agent.Runtime.State.{SchedulerState, StatePersistence}
use kube_ops_agent.Runtime.State.Files.{
  Outcome, done, tmp_path, read_file, load_text, load, leave_partial, write_state, save,
}

tail_of : String → String
tail_of empty = empty
tail_of (cons c s) = s

tmp_path-ne : (path : String) → path ≢ tmp_path path
unfolding tail_of
tmp_path-ne empty e = cc (rw nil-append at e)
tmp_path-ne (cons c s) e = tmp_path-ne s (ap tail_of (rw cons-append at e))

-- The state as `Save` stamps it.
abbrev pub stamped : ℕ → StatePersistence → SchedulerState
stamped now s = record s.state { last_saved = now / second }

-- Two states with the same entries: their maps agree at every key.
pub record SameState (a b : SchedulerState) : Type 0 where
  pub agents : (name : String) → lookup name a.agents ≡ lookup name b.agents
  pub pipelines : (name : String) → lookup name a.pipelines ≡ lookup name b.pipelines
  pub last_saved : a.last_saved ≡ b.last_saved
  pub version : a.version ≡ b.version

module _ {ℓ} {Text : Type ℓ} where
  lookup-insert_ne :
      (k j : String) (text : Text) (files : List (String × Text))
      → j ≢ k
      → lookup j (insert k text files) ≡ lookup j files
  lookup-insert_ne k j text files h = lookup-insert k j text files ∙ if_neg (str_dec j k) h _ _

  lookup-leave_partial :
      (tmp path : String) (partial : Option Text) (files : List (String × Text))
      → path ≢ tmp
      → lookup path (leave_partial tmp partial files) ≡ lookup path files
  unfolding leave_partial
  lookup-leave_partial tmp path none files h = refl
  lookup-leave_partial tmp path (some part) files h = lookup-insert_ne tmp path part files h

  lookup-renamed :
      (tmp path : String) (text : Text) (files : List (String × Text))
      → path ≢ tmp
      → lookup path (delete tmp (insert tmp text files)) ≡ lookup path files
  lookup-renamed tmp path text files h =
      lookup-delete tmp path (insert tmp text files)
      ∙ (if_neg (str_dec path tmp) h _ _ ∙ lookup-insert_ne tmp path text files h)

  lookup-insert_self :
      (k : String) (text : Text) (files : List (String × Text))
      → lookup k (insert k text files) ≡ some text
  lookup-insert_self k text files = lookup-insert k k text files ∙ if_pos (str_dec k k) refl _ _

  write_state-cases :
      (o : Outcome Text) (text : Text) (s : StatePersistence) (files : List (String × Text))
      → let (s', files', status) = write_state o text s files in
        ((status ≢ done) × (lookup s.state_file files' ≡ lookup s.state_file files) × (s' ≡ s))
        ⊎ ((status ≡ done)
            × (lookup s.state_file files' ≡ some text)
            × (s' ≡ record s { dirty = false }))
  unfolding write_state
  write_state-cases o text s files =
      let path = s.state_file in
      let tmp = tmp_path path in
      ground (
        arith,
        lookup-leave_partial tmp path o.partial files (tmp_path-ne path),
        lookup-renamed tmp path text files (tmp_path-ne path),
        lookup-insert_self path text (delete tmp (insert tmp text files)),
      )

module _ {ℓ} {Text : Type ℓ} (marshal : SchedulerState → Option Text) where
  -- A `Save` with persistence on either reports an error, leaves the text of the state file and the
  -- dirty flag as they were, or succeeds, has the whole new text in the state file and clears the
  -- flag. This holds for every answer of the operating system, partial writes included.
  pub save_atomic :
      (now : ℕ) (o : Outcome Text) (s : StatePersistence) (files : List (String × Text))
      → s.persist_state ≡ true
      → let (s', files', status) = save marshal now o s files in
        (s'.state ≡ stamped now s)
        × (((status ≢ done)
              × (lookup s.state_file files' ≡ lookup s.state_file files)
              × (s'.dirty ≡ s.dirty))
            ⊎ ((status ≡ done)
                × (lookup s.state_file files' ≡ marshal (stamped now s))
                × (s'.dirty ≡ false)))
  unfolding save
  save_atomic now o s files on = elim (Option-cases (marshal (stamped now s))) [
    | inl bad ↦ ground arith
    | inr (text, good) ↦
        let next = record s { state = stamped now s } in
        ground (arith, write_state-cases o text next files)
  ]

  save-marshal :
      (now : ℕ) (o : Outcome Text) (s : StatePersistence) (files : List (String × Text))
      → s.persist_state ≡ true
      → (save marshal now o s files).2 ≡ done
      → (text : Text) × (marshal (stamped now s) ≡ some text)
  unfolding save
  save-marshal now o s files on ok = elim (Option-cases (marshal (stamped now s))) [
    | inl bad ↦ cc (rw (on, bad) at ok)
    | inr (text, good) ↦ (text, good)
  ]

  module _ (unmarshal : Text → Option SchedulerState) where
    -- The text of an encoded state decodes to that state, up to the order of its maps, which an encoding need not keep.
    -- Then after a successful `Save` with persistence on, a `Load` of the state file by any store that persists succeeds
    -- and gives, for every agent and every pipeline, the entry that was saved, with the time of the save and the version.
    pub load-save :
        (now : ℕ) (o : Outcome Text) (s t : StatePersistence) (files : List (String × Text))
        → ((st : SchedulerState) (text : Text)
            → marshal st ≡ some text
            → (st' : SchedulerState) × (unmarshal text ≡ some st') × SameState st' st)
        → s.persist_state ≡ true
        → t.persist_state ≡ true
        → (save marshal now o s files).2 ≡ done
        → let (u, status) =
            load unmarshal (read_file s.state_file (save marshal now o s files).1) t in
          (status ≡ done) × SameState u.state (stamped now s)
    unfolding load load_text read_file
    load-save now o s t files decodes on persists ok =
        let (text, encoded) = save-marshal now o s files on ok in
        let (st', decoded, same_state) = decodes (stamped now s) text encoded in
        let read : load unmarshal (read_file s.state_file (save marshal now o s files).1) t
            ≡ (record t { state = st' }, done) =
          ground (arith, save_atomic now o s files on, encoded, decoded) in
        rw read (refl, same_state)
