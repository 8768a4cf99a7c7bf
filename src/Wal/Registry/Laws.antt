-- ===== src/Wal/Registry/Laws.antt =====
-- A registry of src/persistence/walOperations.ts runs the definitions that it was created with.
use ether_memories.Prelude.{
  ◌≡◌, refl, sym, ◌∙◌, Bool-cases, inl, inr, false, not, ◌||◌, some, is_some, List, [], ◌∷◌, All,
  All-imp, arith,
}
use ether_memories.Result.{ok, err, ErrorCode, ◌>>=◌}
use ether_memories.Result.Ensures.{Ensures, ensured, Ensures-of, Ensures-if, >>=-Ensures}
use ether_memories.Text.{Text, same, same_iff, same_refl}
use ether_memories.Value.{Value}
use ether_memories.OrderedMap
use ether_memories.OrderedMap.{get, has}
use ether_memories.OrderedMap.Laws.{get-set, has_lem}
use ether_memories.Durable.{WalOperation}
use ether_memories.Json.{JsonRuntime}
use ether_memories.Wal.Registry.{
  ReplayOperationDefinition, ReplayRegistry, Entries, operation_type, operation_version,
  operation_key, detached_state, contracted, lookup, register, register_all, registry_of,
  create_replay_registry,
}

abbrev pub key_of : ReplayOperationDefinition → Text
key_of d = operation_key d.op_type d.version

-- What is found stays found.
abbrev Keeps : Entries → Entries → Type 0
Keeps base entries =
    (key : Text) (d : ReplayOperationDefinition) → get key base ≡ some d → get key entries ≡ some d

register-Keeps :
    (base : Entries) (d : ReplayOperationDefinition)
    → Ensures (λ entries. Keeps base entries × (get (key_of d) entries ≡ some d)) (register base d)
unfolding register
register-Keeps base d =
    let P : Entries → Type 0 = λ entries. Keeps base entries × (get (key_of d) entries ≡ some d) in
    Ensures-if P (not (operation_type d.op_type) || not (operation_version d.version))
      (err ErrorCode.invalid_input) _ (λ _. tt)
      λ _.
        Ensures-if P (has (key_of d) base) (err ErrorCode.invalid_input)
          (ok (OrderedMap.set (key_of d) d base)) (λ _. tt)
          λ fresh. (
            λ key e found. kept key e found fresh,
            get-set (key_of d) (key_of d) d base ∙ rw (same_refl (key_of d)) refl,
          )
  where
    kept :
        (key : Text) (e : ReplayOperationDefinition)
        → get key base ≡ some e
        → has (key_of d) base ≡ false
        → get key (OrderedMap.set (key_of d) d base) ≡ some e
    kept key e found fresh = elim (Bool-cases (same (key_of d) key)) [
      | inl s ↦
          let here : is_some (get key base) ≡ false =
            sym (has_lem key base) ∙ rw (← (same_iff (key_of d) key).0 s) fresh in
          ground (arith, found, here)
      | inr s ↦ get-set (key_of d) key d base ∙ rw (s, found) refl
    ]

-- A registry whose entries hold every definition under its key.
Holds : Entries → ReplayOperationDefinition → Type 0
Holds entries d = get (key_of d) entries ≡ some d

register_all-Holds :
    (base : Entries) (ds : List ReplayOperationDefinition)
    → Ensures (λ entries. Keeps base entries × All (Holds entries) ds) (register_all base ds)
unfolding register_all Holds
register_all-Holds base [] = (λ key d found. found, tt)
register_all-Holds base (d ∷ ds) =
    let P : Entries → Type 0 = λ entries. Keeps base entries × All (Holds entries) (d ∷ ds) in
    >>=-Ensures P (register base d) (λ more. register_all more ds)
      λ more e.
        let (kept, here) =
          ensured (λ entries. Keeps base entries × (get (key_of d) entries ≡ some d))
            (register base d) more (register-Keeps base d) e in
        let rest = register_all more ds in
        Ensures-of P rest λ entries found.
          let (later, all) =
            ensured (λ entries. Keeps more entries × All (Holds entries) ds) rest entries
              (register_all-Holds more ds) found in
          (λ key x p. later key x (kept key x p), (later (key_of d) d here, all))

-- The operation of a definition, with a payload.
abbrev pub operation_of : ReplayOperationDefinition → Value → WalOperation
operation_of d payload = record { op_type = d.op_type; version = d.version; payload = payload }

-- The registry calls the definition's own functions, and detaches the state that its reducer returns.
abbrev pub Runs : JsonRuntime → ReplayRegistry → ReplayOperationDefinition → Type 0
Runs json registry d =
    (state payload : Value)
    → (registry.validate (operation_of d payload) ≡ contracted (d.validate payload))
      × (registry.reduce state (operation_of d payload)
          ≡ (contracted (d.reduce state payload) >>= detached_state json))

registry_of-Runs :
    (json : JsonRuntime) (entries : Entries) (d : ReplayOperationDefinition)
    → Holds entries d
    → Runs json (registry_of json entries) d
unfolding registry_of lookup Holds
registry_of-Runs json entries d h state payload = (rw h refl, rw h refl)

-- A registry that `createReplayRegistry` returns runs, for the type and the version of each of the
-- definitions, the functions of that definition.
pub create_replay_registry-Runs :
    (json : JsonRuntime) (ds : List ReplayOperationDefinition) (registry : ReplayRegistry)
    → create_replay_registry json ds ≡ ok registry
    → All (Runs json registry) ds
unfolding create_replay_registry
create_replay_registry-Runs json ds registry h =
    let P : ReplayRegistry → Type 0 = λ registry. All (Runs json registry) ds in
    ensured P (create_replay_registry json ds) registry
      (>>=-Ensures P (register_all [] ds) _ λ entries e.
        All-imp (Holds entries) (Runs json (registry_of json entries))
          (λ d. registry_of-Runs json entries d) ds
          (ensured (λ entries. Keeps [] entries × All (Holds entries) ds) (register_all [] ds)
            entries (register_all-Holds [] ds) e).1)
      h
