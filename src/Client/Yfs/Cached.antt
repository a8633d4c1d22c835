-- ===== src/Client/Yfs/Cached.antt =====
-- The caching extent client of src/client/extent_client_cache.cc as the extent client of
-- src/client/yfs_client.cc.
use ctgfs.Prelude.{ℕ, ◌+◌, ◌≡◌, refl, ap, ◌∙◌, Option, none, some}
use ctgfs.Prelude.Bytes.{Bytes}
use ctgfs.Fs.ExtentServer.{Attr, ok, rpcerr, noent, ioerr}
use ctgfs.Fs.ExtentServer as Remote
use ctgfs.Client.ExtentCache.{World, Net}
use ctgfs.Client.ExtentCache as Cache
use ctgfs.Client.ExtentCache.WriteBack.{
  view, IsCoherent, put-view, get-view, get-answers, getattr-view,
}
use ctgfs.Client.Yfs.Io.{ExtentClient, Laws}

-- The calls of the operations, by their number, reach the server as `net` says, at the times `now`.
pub record Cached : Type 0 where
  pub world : World
  pub net : ℕ → Net
  pub now : ℕ → ℕ
  pub round : ℕ

abbrev answer_of : {A : Type 0} → Remote.Status × A → Option A
answer_of (ok, a) = some a
answer_of (_, a) = none

abbrev done_of : Remote.Status → Option (Unit {0})
done_of ok = some tt
done_of _ = none

abbrev with_world : Cached → World → Cached
with_world s w = record s { world = w; round = s.round + 1 }

abbrev pub cached_client : ExtentClient
cached_client = record {
  State = Cached;
  get = λ s id.
      let r = Cache.get (s.net s.round) (s.now s.round) s.world id in
      (answer_of r.0, with_world s r.1);
  put = λ s id b. let r = Cache.put (s.now s.round) s.world id b in (done_of r.0, with_world s r.1);
  getattr = λ s id.
      let r = Cache.getattr (s.net s.round) (s.now s.round) s.world id in
      (answer_of r.0, with_world s r.1);
  setattr = λ s id a.
      let r = Cache.setattr (s.net s.round) (s.now s.round) s.world id a in
      (done_of r.0, with_world s r.1);
  remove = λ s id. let r = Cache.remove s.world id in (done_of r.0, with_world s r.1);
}

pub answer_some :
    (r : Remote.Status × Bytes) (b : Bytes) → answer_of r ≡ some b → (r.0 ≡ ok) × (r.1 ≡ b)
answer_some (ok, a) b e = (refl, cc)
answer_some (rpcerr, a) b e = cc
answer_some (noent, a) b e = cc
answer_some (ioerr, a) b e = cc

-- The laws of the extent client hold of the cache where its entries are coherent, and a file is what the
-- client sees of it.
unfoldable pub cached_client-Laws : Laws cached_client
cached_client-Laws = record {
  IsValid = λ s. (id : ℕ) → IsCoherent s.world id;
  content = λ s. view s.world;
  get-IsValid = λ s id c other.
      (get-view (s.net s.round) (s.now s.round) s.world id other (c id) (c other)).0;
  get-content = λ s id other c.
      (get-view (s.net s.round) (s.now s.round) s.world id other (c id) (c other)).1;
  get-answer = λ s id b c e.
      let r = Cache.get (s.net s.round) (s.now s.round) s.world id in
      let (isok, same) = answer_some r.0 b e in
      (get-answers (s.net s.round) (s.now s.round) s.world id (c id)).0 isok ∙ ap some same;
  getattr-IsValid = λ s id c other.
      (getattr-view (s.net s.round) (s.now s.round) s.world id other (c id) (c other)).0;
  getattr-content = λ s id other c.
      (getattr-view (s.net s.round) (s.now s.round) s.world id other (c id) (c other)).1;
  put-IsValid = λ s id b h c other. (put-view (s.now s.round) s.world id other b h (c other)).0;
  put-content = λ s id other b h c e. (put-view (s.now s.round) s.world id other b h (c other)).1;
}
