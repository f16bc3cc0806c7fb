-- ===== src/Account/Sound/Whole.antt =====
-- What every call of the service leaves true of the tables.
use go_starter_kit.Base.{List}
use go_starter_kit.Db.{Session}
use go_starter_kit.Db.Keeps.{Holds}
use go_starter_kit.Account.Tables.{Tables}
use go_starter_kit.Account.Env.{Env}
use go_starter_kit.Account.Kept.{IsKept}
use go_starter_kit.Account.Both.{IsKept-both}
use go_starter_kit.Account.Calls.{Call, runs, runs-Holds}
use go_starter_kit.Account.Sound.Rows.{AreUsers, IsKept-AreUsers}
use go_starter_kit.Account.Sound.Logins.{AreAccounts, IsKept-AreAccounts}
use go_starter_kit.Account.Sound.Opened.{AreSessions, AreFlows, IsKept-AreSessions, IsKept-AreFlows}

abbrev pub AreSound : Tables → Type 0
AreSound t =
    (AreUsers t.users × AreAccounts t.accounts) × (AreSessions t.sessions × AreFlows t.flows)

IsKept-AreSound : IsKept AreSound
IsKept-AreSound =
    IsKept-both (λ t. AreUsers t.users × AreAccounts t.accounts)
      (λ t. AreSessions t.sessions × AreFlows t.flows)
      (IsKept-both (λ t. AreUsers t.users) (λ t. AreAccounts t.accounts) IsKept-AreUsers
        IsKept-AreAccounts)
      (IsKept-both (λ t. AreSessions t.sessions) (λ t. AreFlows t.flows) IsKept-AreSessions
        IsKept-AreFlows)

-- Whatever calls of the service are made, whether or not the database fails, the tables stay sound, if
-- they were and the other processes keep them so: no identifier of a user, of an account, of a session or
-- of a flow stands twice; a user has a known status and role and a version from 1 on; an account has a
-- version from 1 on, and is either the password of its user in the local namespace, with a hash, or of a
-- provider, in another namespace and without one; a session has a digest of 32 bytes, a known method, a
-- version from 1 on, and an idle end not behind its absolute end; a flow has a known purpose and status,
-- has a user exactly when it has a session, has one unless anybody may start it, and keeps no protocol
-- state once it is consumed or has failed.
pub runs-AreSound :
    (calls : List (Env × Call)) (s : Session Tables)
    → Holds AreSound s
    → AreSound (runs calls s).table
runs-AreSound calls s h = (runs-Holds AreSound IsKept-AreSound calls s h).now
