-- ===== src/Engine/Channel.antt =====
-- The shard map, and what `Submit` does to the channels.
use mynance.Base.{
  ◌≤◌, ◌≡◌, ◌≢◌, refl, ◌↔◌, inl, inr, List, [], ◌∷◌, ◌++◌, none, some, Bytes, ◌=ᵇ◌, bytes_iff,
  =ᵇ_refl, if◌then◌else◌, length, length-append, arith, Bool-cases, Option-cases, some_inj, subst,
}
use mynance.Engine.{
  Command, Shard, Shards, Engine, EngineError, unknown_symbol, shard_of, put_shard, command_symbol,
  submit,
}

pub shard_of-put_shard :
    (j k : Bytes) (sh : Shard) (m : Shards)
    → shard_of j (put_shard k sh m) ≡ (if k =ᵇ j then some sh else shard_of j m)
unfolding shard_of put_shard
shard_of-put_shard j k sh [] = refl
shard_of-put_shard j k sh ((i, old) ∷ rest) =
    ground (arith, bytes_iff k j, bytes_iff i k, bytes_iff i j, shard_of-put_shard j k sh rest)

pub shard_of-put_self :
    (k : Bytes) (sh : Shard) (m : Shards) → shard_of k (put_shard k sh m) ≡ some sh
shard_of-put_self k sh m = simp (shard_of-put_shard, =ᵇ_refl)

pub shard_of-put_ne :
    (j k : Bytes) (sh : Shard) (m : Shards) → j ≢ k → shard_of j (put_shard k sh m) ≡ shard_of j m
shard_of-put_ne j k sh m h = ground (arith, bytes_iff k j, shard_of-put_shard j k sh m)

-- A property that holds of every shard, and of a new one, still does when it is put.
pub every_shard-put_shard :
    (P : Shard → Type 0) (k : Bytes) (sh : Shard) (m : Shards)
    → P sh
    → ((j : Bytes) (x : Shard) → shard_of j m ≡ some x → P x)
    → (j : Bytes) (x : Shard) → shard_of j (put_shard k sh m) ≡ some x
    → P x
every_shard-put_shard P k sh m new old j x h = elim (Bool-cases (k =ᵇ j)) [
  | inl same ↦ subst P (some_inj (rw (shard_of-put_shard j k sh m, same) at h)) new
  | inr differ ↦ old j x (rw (shard_of-put_shard j k sh m, differ) at h)
]

-- The commands that wait for a symbol's worker.
abbrev pub waiting : Engine → Bytes → List Command
waiting e symbol = elim (shard_of symbol e.shards) [ none ↦ [] | some sh ↦ sh.cmd_ch ]

-- No channel holds more than its capacity.
abbrev pub Fits : Engine → Type 0
Fits e =
    (symbol : Bytes) (sh : Shard)
    → shard_of symbol e.shards ≡ some sh
    → length sh.cmd_ch ≤ sh.capacity

submit-Fits : (e : Engine) (cmd : Command) → Fits e → Fits (submit e cmd).0
unfolding submit
submit-Fits e cmd fits symbol sh h = elim (Option-cases (shard_of (command_symbol cmd) e.shards)) [
  | inl missing ↦ fits symbol sh (rw (missing, submit) at h)
  | inr (old, found) ↦ ground (
    arith,
    found,
    fits symbol sh,
    fits (command_symbol cmd) old,
    length-append old.cmd_ch (cmd ∷ []),
    shard_of-put_shard symbol (command_symbol cmd) (record old { cmd_ch = old.cmd_ch ++ cmd ∷ [] })
        e.shards,
  )
]

waiting-submit :
    (e : Engine) (cmd : Command) (symbol : Bytes)
    → (submit e cmd).1 ≡ none
    → waiting (submit e cmd).0 symbol
      ≡ (if command_symbol cmd =ᵇ symbol then waiting e symbol ++ cmd ∷ [] else waiting e symbol)
unfolding submit
waiting-submit e cmd symbol h = elim (Option-cases (shard_of (command_symbol cmd) e.shards)) [
  | inl missing ↦ ground (arith, missing)
  | inr (old, found) ↦ ground (
    arith,
    found,
    bytes_iff (command_symbol cmd) symbol,
    shard_of-put_shard symbol (command_symbol cmd) (record old { cmd_ch = old.cmd_ch ++ cmd ∷ [] })
        e.shards,
  )
]

submit_refused :
    (e : Engine) (cmd : Command) (x : EngineError)
    → (submit e cmd).1 ≡ some x
    → (submit e cmd).0 ≡ e
unfolding submit
submit_refused e cmd x h = ground arith

submit_unknown :
    (e : Engine) (cmd : Command)
    → ((submit e cmd).1 ≡ some unknown_symbol) ↔ (shard_of (command_symbol cmd) e.shards ≡ none)
unfolding submit
submit_unknown e cmd = ground arith

-- If `Submit` accepts a command and no channel held more than its capacity, then the command stands
-- last in the channel of its symbol, every other channel is as it was, and still no channel holds more
-- than its capacity.
pub submit-accepted :
    (e : Engine) (cmd : Command) (symbol : Bytes)
    → Fits e
    → (submit e cmd).1 ≡ none
    → Fits (submit e cmd).0
      × (waiting (submit e cmd).0 symbol ≡ (
          if command_symbol cmd =ᵇ symbol then waiting e symbol ++ cmd ∷ [] else waiting e symbol))
submit-accepted e cmd symbol fits h = (submit-Fits e cmd fits, waiting-submit e cmd symbol h)

-- If `Submit` refuses a command, nothing has changed, and the reason is an unknown symbol exactly if
-- the engine has no shard of the command's symbol.
pub submit-refused :
    (e : Engine) (cmd : Command) (x : EngineError)
    → (submit e cmd).1 ≡ some x
    → ((submit e cmd).0 ≡ e)
      × ((x ≡ unknown_symbol) ↔ (shard_of (command_symbol cmd) e.shards ≡ none))
submit-refused e cmd x h = (submit_refused e cmd x h, ground (arith, submit_unknown e cmd, h))
