-- ===== src/Engine/Knowledge.antt =====
-- engine/service.py and claims/versioning.py: what a point in time of knowledge shows of a claim.
use memory_os.Base.{ℕ, String, List, ◌≡◌, keep}
use memory_os.Store.{Db}
use memory_os.Claims.Versioning.{history, VersionQuery, is_visible_row}
use memory_os.Claims.Versioning.Latest.{latest_known, keep-is_visible_row}
use memory_os.Claims.Truth.Keeps.Instances.{HasTimelines}
use memory_os.Engine.{Engine}
use memory_os.Engine.Calls.{Call, run}
use memory_os.Engine.Timelines.{run-IsWellFormed}

-- If the histories of all claims are timelines, then after any sequence of calls of the service the
-- rows of a claim that pass the test of `visible_versions` are at most one: the version recorded last
-- by the known time, and that only if it holds at the valid time with a status asked for.
pub keep-is_visible_row-run :
    (e : Engine) (calls : List (ℕ × String × Call)) (db : Db) (q : VersionQuery) (claim_id : ℕ)
    → HasTimelines db
    → keep (is_visible_row q) (history claim_id (run e calls db).versions)
      ≡ latest_known q (history claim_id (run e calls db).versions)
keep-is_visible_row-run e calls db q claim_id w =
    keep-is_visible_row q (history claim_id (run e calls db).versions)
      (run-IsWellFormed e calls db w claim_id)
