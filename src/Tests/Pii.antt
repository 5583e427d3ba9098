-- ===== src/Tests/Pii.antt =====
-- The store, the pseudonymizer and the pipeline of backend/pii, with a hash under which every value
-- has the same suffix.
use mister_pilot_proxy.Prelude.{
  ℕ, ◌≡◌, refl, ◌≢◌, ◌≤◌, ◌<◌, arith, String, Bool, true, false, Option, none, some, List, [], ◌∷◌,
  all, any, eq_iff, eqb,
}
use mister_pilot_proxy.Dict
use mister_pilot_proxy.Pii.{api_key, email, jwt}
use mister_pilot_proxy.Pii.Store.{
  InMemoryStore, init, get_by_original, get_by_placeholder, put, size,
}
use mister_pilot_proxy.Pii.Pseudonymizer.{
  Hashing, resolve_from, resolve_collision, normalize_for_hmac, pseudonymize,
}
use mister_pilot_proxy.Pii.Mappings.{Pseudonymized, init-IsConsistent, pseudonymize-total}
use mister_pilot_proxy.Pii.Pipeline.{
  Match, Finding, Patterns, PatternDef, insert_priority, by_priority, insert_start, by_start,
  accept, resolve_overlaps, redact_pass, collect,
}
use mister_pilot_proxy.Pii.Pipeline.Spans.{Separate, resolve_overlaps-Separate}
use mister_pilot_proxy.Pii.Pipeline.Priority.{settled, resolve_overlaps-settled}
use mister_pilot_proxy.Pii.Pipeline.Rewriting.{Rewritten, Applied}
use mister_pilot_proxy.Pii.Redact.{Deobfuscation, redact}
use mister_pilot_proxy.Pii.Redact.Total.{Grown, redact-total}
use mister_pilot_proxy.Pii.FileStore
use mister_pilot_proxy.Pii.FileStore.{close, take_snapshot}
use mister_pilot_proxy.Pii.FileStore.Saved.{Step, putting, flushing, started_on, run, close-reload}
use mister_pilot_proxy.Pii.Pipeline.Pass.{AreSpans, redact_pass-Rewritten}

abbrev hashing : Hashing
hashing = record { lower = λ text. text; hmac_suffix = λ text. "ABCD" }

abbrev one_key : InMemoryStore
one_key = record {
  ph2orig = ("API_KEY_ABCD", "secret-1") ∷ [];
  orig2ph = ("secret-1", "API_KEY_ABCD") ∷ [];
}

abbrev two_keys : InMemoryStore
two_keys = record {
  ph2orig = ("API_KEY_ABCD", "secret-1") ∷ ("API_KEY_ABCD_1", "secret-2") ∷ [];
  orig2ph = ("secret-1", "API_KEY_ABCD") ∷ ("secret-2", "API_KEY_ABCD_1") ∷ [];
}

first_key : pseudonymize hashing init api_key "secret-1" ≡ some (one_key, "API_KEY_ABCD")
unfolding pseudonymize normalize_for_hmac resolve_collision resolve_from get_by_original
    get_by_placeholder put Dict.get Dict.put size
first_key = refl

second_key : pseudonymize hashing one_key api_key "secret-2" ≡ some (two_keys, "API_KEY_ABCD_1")
unfolding pseudonymize normalize_for_hmac resolve_collision resolve_from get_by_original
    get_by_placeholder put Dict.get Dict.put size mister_pilot_proxy.Prelude.Decimal.decimal
second_key = refl

not_same : ◌≢◌ {A = String} "secret-1" "secret-2"
not_same e = ground (arith, eq_iff "secret-1" "secret-2", e)

pseudonymize-total_example :
    (after : InMemoryStore) × (p : String) × (pseudonymize hashing init email "ann@acme.com"
      ≡ some (after, p))
    × Pseudonymized init email "ann@acme.com" after p
pseudonymize-total_example = pseudonymize-total hashing init email "ann@acme.com" init-IsConsistent

abbrev address : Match
address = record {
  start = 0;
  end = 5;
  original = "a@b.c";
  full_text = "a@b.c";
  val_start = 0;
  val_end = 5;
  pdef = record { entity_type = email; pattern = 0; value_group = 0; priority = 20 };
}

abbrev token : Match
token = record {
  start = 3;
  end = 9;
  original = ".ceyJx";
  full_text = ".ceyJx";
  val_start = 0;
  val_end = 6;
  pdef = record { entity_type = jwt; pattern = 0; value_group = 0; priority = 95 };
}

token_wins : resolve_overlaps (address ∷ token ∷ []) ≡ token ∷ []
unfolding resolve_overlaps by_priority insert_priority by_start insert_start accept
token_wins = refl

resolve_overlaps-Separate_example : Separate 0 (resolve_overlaps (address ∷ token ∷ []))
resolve_overlaps-Separate_example = resolve_overlaps-Separate (address ∷ token ∷ []) refl

resolve_overlaps-settled_example :
    all (settled (resolve_overlaps (address ∷ token ∷ []))) (address ∷ token ∷ []) ≡ true
resolve_overlaps-settled_example = resolve_overlaps-settled (address ∷ token ∷ []) refl

abbrev patterns : Patterns
patterns = record {
  registry = record { entity_type = email; pattern = 0; value_group = 0; priority = 20 } ∷ [];
  finditer = λ pdef text. record { start = 3; end = 8; group = some (3, 8) } ∷ [];
  is_excluded = λ text. false;
}

documented : (pdef : PatternDef) → AreSpans pdef (patterns.finditer pdef "to a@b.c!")
documented pdef = ((omega arith, omega arith, omega arith, λ g. (refl, refl)), tt)

redact_pass-Rewritten_example :
    (after : InMemoryStore) × (out : String) × (findings : List Finding) × (redact_pass
        (pseudonymize hashing)
        20
        "to a@b.c!"
        patterns
        init
      ≡ some (after, (out, findings)))
    × Rewritten "to a@b.c!" out (resolve_overlaps (collect patterns "to a@b.c!")) findings
    × Applied init after (resolve_overlaps (collect patterns "to a@b.c!")) findings
redact_pass-Rewritten_example =
    redact_pass-Rewritten patterns 20 "to a@b.c!" documented hashing init init-IsConsistent

-- A put between the snapshot and the write of a flush.
abbrev interleaved : List Step
interleaved =
    putting "API_KEY_ABCD" "secret-1"
    ∷ flushing true
    ∷ putting "API_KEY_ABCD_1" "secret-2"
    ∷ flushing true
    ∷ []

written_back : (run (started_on none) interleaved).taken ≡ none
unfolding take_snapshot FileStore.put FileStore.init
written_back = refl

close-reload_example :
    (FileStore.init (close (run (started_on none) interleaved).store true).file).memory
    ≡ (run (started_on none) interleaved).store.memory
close-reload_example = close-reload none interleaved refl written_back

-- Text with spaces is cleaned to one without, in which the token is found.
abbrev deobfuscation : Deobfuscation
deobfuscation = record {
  deobfuscate = λ text. "sk-12345678";
  core = λ text. text;
  is_within = λ core text. true;
  contains_placeholder = λ core. false;
  subn = λ core placeholder text. some placeholder;
}

redact-total_example :
    (after : InMemoryStore) × (out : String) × (findings : List Finding) × (redact
        (pseudonymize hashing)
        patterns
        deobfuscation
        20
        "s k-123456 78"
        init
      ≡ some (after, (out, findings)))
    × Grown init after
redact-total_example =
    redact-total hashing patterns deobfuscation 20 "s k-123456 78" init init-IsConsistent
