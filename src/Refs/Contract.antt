-- ===== src/Refs/Contract.antt =====
-- Rules for meeting the contract of mizzle/src/backend/mod.rs one update at a time.
use mizzle.Base.Result.{Result}
use mizzle.Base.{Bool, true, false, Option, none, some, ok, err, ◌>>=◌, if◌then◌else◌}
use mizzle.Refs.{RefMap, Implements}

-- One update, then the rest of the batch.
pub Implements-bind {ℓ} :
    {E S : Type ℓ} (Shows : S → RefMap → Type 0) (b : Bool) (m : RefMap) (spec : Option RefMap)
    (a : Result E S) (rest : S → Result E S)
    → Implements Shows (if b then some m else none) a
    → ((s : S) → Shows s m → Implements Shows spec (rest s))
    → Implements Shows (if b then spec else none) (a >>= rest)
Implements-bind Shows true m spec (ok s) rest h k = k s h
Implements-bind Shows true m spec (err e) rest h k = absurd h
Implements-bind Shows false m spec (ok s) rest h k = absurd h
Implements-bind Shows false m spec (err e) rest h k = tt
