-- ===== src/Dss/Lock/Locate.antt =====
-- `raid_locate` with the locks of the DSS as its lock calls.
use phobos.Base.{ℕ, List, Option}
use phobos.StringArray.CString.{Bytes}
use phobos.Dss.Lock.{Rows}
use phobos.Dss.Lock.Refine.{locate_calls, dss_LockTable}
use phobos.Raid.Locate.Hosts.{Extent}
use phobos.Raid.Locate.Run.{Env, raid_locate}
use phobos.Raid.Locate.Sound.{Leaves, raid_locate-Leaves}
use phobos.Raid.Locate.Keeps.{raid_locate-keeps}
use phobos.Dss.Lock.Touched.{Touched, Touched-self, Touched-IsKept}

module _ (escape : Bytes → Bytes) (host : Bytes) (pid : ℕ) where
  -- The rest of the system stays a parameter.
  abbrev pub dss_env : Env → Env
  dss_env env = record env { calls = locate_calls escape host pid }

  -- A locate over the database, whose statements run, leaves as many new locks as its answer says:
  -- on that many different lock ids that were free, all of the host it names, and every other lock
  -- id has the host that it had. After an error or a failed assertion every lock id has the host
  -- that it had. Whatever the result, no lock but those of media has changed, and each lock of a
  -- medium is a weak one of the process, or was there with the same host, owner, time and weakness.
  pub raid_locate-dss :
      (env : Env) (n_data n_parity : ℕ) (extents : List Extent) (focus_host : Option Bytes)
      (rows : Rows) (now : ℕ)
      → Leaves
          (dss_env env)
          (dss_LockTable escape host pid)
          n_data
          n_parity
          (rows, now)
          (raid_locate (dss_env env) n_data n_parity extents focus_host (rows, now))
        × Touched pid
            (rows, now)
            (raid_locate (dss_env env) n_data n_parity extents focus_host (rows, now)).1
  raid_locate-dss env n_data n_parity extents focus_host rows now = (
    raid_locate-Leaves (dss_env env) (dss_LockTable escape host pid) n_data n_parity extents
        focus_host (rows, now),
    raid_locate-keeps (dss_env env) (Touched pid (rows, now))
        (Touched-IsKept escape host pid (rows, now)) n_data n_parity extents focus_host (rows, now)
        (Touched-self pid (rows, now)),
  )
