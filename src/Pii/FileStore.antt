-- ===== src/Pii/FileStore.antt =====
-- `FileStore` of backend/pii/store.py: a store in memory, and the file that it is flushed to. The lock
-- makes each operation on the memory one step; a flush is two, the snapshot under the lock and the
-- writing of the file outside it, and other steps may come between. What the file holds is what
-- `json` reads back; a write either replaces the whole file or fails.
pub mod Saved
use mister_pilot_proxy.Prelude.{ℕ, String, Bool, true, false, Option, none, some, [], if◌then◌else◌}
use mister_pilot_proxy.Pii.Store
use mister_pilot_proxy.Pii.Store.{InMemoryStore}

pub record FileStore : Type 0 where
  pub memory : InMemoryStore
  pub dirty : Bool
  pub file : Option InMemoryStore

-- `_load`: a missing or broken file gives an empty store.
abbrev pub load : Option InMemoryStore → InMemoryStore
load none = Store.init
load (some saved) = saved

unfoldable pub init : Option InMemoryStore → FileStore
init file = record { memory = load file; dirty = false; file = file }

unfoldable pub get_by_original : FileStore → String → Option String
get_by_original store original = Store.get_by_original store.memory original

unfoldable pub get_by_placeholder : FileStore → String → Option String
get_by_placeholder store placeholder = Store.get_by_placeholder store.memory placeholder

unfoldable pub put : FileStore → String → String → FileStore
put store placeholder original = record {
  memory = Store.put store.memory placeholder original;
  dirty = true;
  file = store.file;
}

-- `_flush` under the lock: what is to be written, if anything.
unfoldable pub take_snapshot : FileStore → FileStore × Option InMemoryStore
take_snapshot store =
    if store.dirty then (record store { dirty = false }, some store.memory) else (store, none)

-- `_flush` outside the lock. `written` is whether the write works; an OSError is passed over.
unfoldable pub write_snapshot : InMemoryStore → Bool → FileStore → FileStore
write_snapshot snapshot true store = record store { file = some snapshot }
write_snapshot snapshot false store = store

abbrev pub written_out : FileStore × Option InMemoryStore → Bool → FileStore
written_out (store, none) written = store
written_out (store, some snapshot) written = write_snapshot snapshot written store

-- `_flush` of a thread that no other comes between.
unfoldable pub flush : FileStore → Bool → FileStore
unfolding take_snapshot write_snapshot
flush store written = written_out (take_snapshot store) written

unfoldable pub size : FileStore → ℕ
size store = Store.size store.memory

unfoldable pub close : FileStore → Bool → FileStore
unfolding flush
close store written = flush store written
