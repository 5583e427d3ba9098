-- ===== src/Pii/FileStore/Saved.antt =====
-- What a `FileStore` of backend/pii/store.py has on file after a run of its operations and of its
-- flushing thread.
use mathlib.Core.Path.{subst}
use mister_pilot_proxy.Prelude.{
  String, ◌≡◌, refl, inl, inr, Bool, Bool-cases, true, false, Option, none, some, List, [], ◌∷◌,
}
use mister_pilot_proxy.Pii.Store.{InMemoryStore}
use mister_pilot_proxy.Pii.FileStore.{
  FileStore, load, init, put, take_snapshot, write_snapshot, flush, close,
}

-- The store, and the snapshot that the flushing thread has taken and not yet written.
pub record Process : Type 0 where
  pub store : FileStore
  pub taken : Option InMemoryStore

abbrev pub started_on : Option InMemoryStore → Process
started_on file = record { store = init file; taken = none }

-- A step: a put, or the flushing thread's next step, which is to take a snapshot, or to write the one
-- that it has taken, where the write works or fails.
pub data Step : Type 0 where
  putting : String → String → Step
  flushing : Bool → Step

abbrev next_flushing : FileStore → Option InMemoryStore → Bool → Process
next_flushing store (some snapshot) written = record {
  store = write_snapshot snapshot written store;
  taken = none;
}
next_flushing store none written = record {
  store = (take_snapshot store).0;
  taken = (take_snapshot store).1;
}

abbrev pub run : Process → List Step → Process
run process [] = process
run process (putting placeholder original ∷ steps) =
    run (record process { store = put process.store placeholder original }) steps
run process (flushing written ∷ steps) =
    run (next_flushing process.store process.taken written) steps

-- No write fails.
abbrev pub all_written : List Step → Bool
all_written [] = true
all_written (putting placeholder original ∷ steps) = all_written steps
all_written (flushing true ∷ steps) = all_written steps
all_written (flushing false ∷ steps) = false

-- What the file holds once the thread has written what it has.
abbrev file_then : FileStore → Option InMemoryStore → Option InMemoryStore
file_then store none = store.file
file_then store (some snapshot) = some snapshot

-- What is not dirty is on file, or about to be.
abbrev Clean : FileStore → Option InMemoryStore → Type 0
Clean store snapshot = store.dirty ≡ false → load (file_then store snapshot) ≡ store.memory

Clean-put :
    (store : FileStore) (snapshot : Option InMemoryStore) (placeholder original : String)
    → Clean (put store placeholder original) snapshot
unfolding put
Clean-put store snapshot placeholder original h = cc

Clean-take :
    (store : FileStore) → Clean store none → Clean (take_snapshot store).0 (take_snapshot store).1
unfolding take_snapshot
Clean-take store clean = elim (Bool-cases store.dirty) [
  | inl dirty ↦ simp dirty (λ h. refl)
  | inr saved ↦ simp saved (λ e. clean saved)
]

Clean-write :
    (store : FileStore) (snapshot : InMemoryStore)
    → Clean store (some snapshot)
    → Clean (write_snapshot snapshot true store) none
unfolding write_snapshot
Clean-write store snapshot clean h = clean h

Clean-next :
    (store : FileStore) (snapshot : Option InMemoryStore)
    → Clean store snapshot
    → Clean (next_flushing store snapshot true).store (next_flushing store snapshot true).taken
Clean-next store none clean = Clean-take store clean
Clean-next store (some snapshot) clean = Clean-write store snapshot clean

run-Clean :
    (process : Process) (steps : List Step)
    → Clean process.store process.taken
    → all_written steps ≡ true
    → Clean (run process steps).store (run process steps).taken
run-Clean process [] clean h = clean
run-Clean process (putting placeholder original ∷ steps) clean h =
    run-Clean (record process { store = put process.store placeholder original }) steps
      (Clean-put process.store process.taken placeholder original) h
run-Clean process (flushing true ∷ steps) clean h =
    run-Clean (next_flushing process.store process.taken true) steps
      (Clean-next process.store process.taken clean) h
run-Clean process (flushing false ∷ steps) clean h = cc

flush-saved : (store : FileStore) → Clean store none → load (flush store true).file ≡ store.memory
unfolding flush take_snapshot write_snapshot
flush-saved store clean = elim (Bool-cases store.dirty) [
  | inl dirty ↦ rw dirty refl
  | inr saved ↦ simp saved (clean saved)
]

-- A store is opened on whatever file, and puts come in any order between the steps of the flushing
-- thread. If no write fails, and the thread is between two flushes when the store is closed, then
-- all its mappings are on file: the next store starts with exactly these.
pub close-reload :
    (file : Option InMemoryStore) (steps : List Step)
    → all_written steps ≡ true
    → (run (started_on file) steps).taken ≡ none
    → (init (close (run (started_on file) steps).store true).file).memory
      ≡ (run (started_on file) steps).store.memory
unfolding close init
close-reload file steps h idle =
    let process = run (started_on file) steps in
    let clean = run-Clean (started_on file) steps (λ e. refl) h in
    flush-saved process.store (subst (Clean process.store) idle clean)
