-- ===== src/Tests/Memory.antt =====
-- A backend in memory, and policies for it.
use mizzle.Base.Result.{Result}
use mizzle.Base.{Bytes, List, [], ◌∷◌, ◌≡◌, refl, true, codes, none, some, Option, ok, err}
use mizzle.Refs.{RefMap, cas_all, fast_forward}
use mizzle.Server.Policy.{Backend, Access}
use mizzle.Server.Routes.{Services}

abbrev pub Memory : Type 0
Memory = RefMap × List Bytes

abbrev pub settle : Memory → Option RefMap → Memory × Result Bytes (Unit {0})
settle s none = (s, err (codes "stale info"))
settle (m, packs) (some m') = ((m', packs), ok tt)

pub settle_failed :
    (s : Memory) (o : Option RefMap) (e : Bytes) → (settle s o).1 ≡ err e → (settle s o).0.0 ≡ s.0
settle_failed s none e h = refl
settle_failed (m, packs) (some m') e h = cc

pub no_updates : (m : RefMap) → cas_all m [] ≡ some m
unfolding cas_all
no_updates m = refl

abbrev pub drop_pack : List Bytes → List Bytes
drop_pack [] = []
drop_pack (p ∷ ps) = ps

abbrev pub memory_backend : Backend
memory_backend = record {
  State = Memory;
  Repo = Unit;
  Pack = Unit;
  Object = Unit;
  open_repo = λ s. ok tt;
  list_refs = λ s r. ok (record { head = none; refs = [] });
  compute_push_kind = λ s r u. fast_forward;
  ingest_pack = λ s r p. ((s.0, p ∷ s.1), ok (some tt));
  inspect_ingested = λ s p. ok [];
  rollback_ingest = λ s p. (s.0, drop_pack s.1);
  update_refs = λ s r us. settle s (cas_all s.0 us);
  refs = λ s. s.0;
  refs-ingest_pack = λ s r p. refl;
  refs-rollback_ingest = λ s p. refl;
  refs-no_updates = λ s r. rw (no_updates s.0) refl;
  refs-failed_update = λ s r us e h. settle_failed s (cas_all s.0 us) e h;
}

abbrev pub open_policy : Access Unit
open_policy = record {
  Context = Unit;
  authorize_preliminary = λ refs. ok tt;
  authorize_push = λ ctx comparison. ok tt;
}

abbrev pub empty_memory : Memory
empty_memory = (λ name. none, [])

abbrev pub no_services : Services memory_backend
no_services = record {
  auto_init = true;
  init_repo = λ s. (s, ok tt);
  resolve_ref = λ s r name. ok (s.0 name);
  lines = λ body. [];
  refs-init_repo = λ s. refl;
}
