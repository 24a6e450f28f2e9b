-- ===== src/Service/Session.antt =====
-- Sessions: `pruneSessions` and `createSessionForUser` of backend/internal/service/common.go.
use interstellar_trade_platf.Base.{
  ℕ, zero, suc, ◌+◌, ◌-◌, ◌/◌, ◌%◌, Bool, true, false, ◌&&◌, ◌||◌, List, [], ◌∷◌, ◌==◌, ltb, leb,
  length, if◌then◌else◌, Result, ok, ◌>>=◌, or_fail,
}
use interstellar_trade_platf.Base.Map.{Map, insert, erase}
use interstellar_trade_platf.Domain.Text.{Ident}
use interstellar_trade_platf.Domain.Clock.{format_time, second}
use interstellar_trade_platf.Domain.Errors.{AppError}
use interstellar_trade_platf.Domain.State.{AppState, Session, User}
use interstellar_trade_platf.Domain.Views.{UserView}
use interstellar_trade_platf.Domain.Host.{Inputs}
use interstellar_trade_platf.Service.Actor.{session_expired}
use interstellar_trade_platf.Service.View.{to_user_view}
use interstellar_trade_platf.Service.Tx.{internal}

-- `n` decimal digits of a fraction of a second, the first digit first.
unfoldable pub digits : ℕ → ℕ → List ℕ → List ℕ
digits zero f out = out
digits (suc n) f out = digits n (f / 10) (f % 10 ∷ out)

-- `time.RFC3339Nano` drops the zeros at the end.
unfoldable pub drop_zeros : List ℕ → List ℕ
drop_zeros [] = []
drop_zeros (d ∷ ds) = elim (drop_zeros ds) [
  | [] ↦ if d == 0 then [] else d ∷ []
  | e ∷ es ↦ d ∷ e ∷ es
]

-- `<` on what follows the seconds, as strings: the closing Z is above the point and every digit.
unfoldable pub fraction_before : List ℕ → List ℕ → Bool
fraction_before [] e = false
fraction_before (c ∷ d) [] = true
fraction_before (c ∷ d) (c' ∷ e) = ltb c c' || c == c' && fraction_before d e

-- `a.CreatedAt < b.CreatedAt`, of two times in the four-digit years
unfoldable pub created_before : ℕ → ℕ → Bool
created_before a b =
    ltb (a / second) (b / second)
    || a / second == b / second
      && fraction_before (drop_zeros (digits 9 (a % second) []))
          (drop_zeros (digits 9 (b % second) []))

-- The loop over the sessions: those that have not expired.
unfoldable pub live_sessions : ℕ → Map Session → Map Session
live_sessions now [] = []
live_sessions now (e ∷ m) =
    if session_expired now e.1.expires_at then live_sessions now m else e ∷ live_sessions now m

-- The sessions of the user.
unfoldable pub sessions_of : Ident → Map Session → List Session
sessions_of user_id [] = []
sessions_of user_id (e ∷ m) =
    if e.1.user_id == user_id then e.1 ∷ sessions_of user_id m else sessions_of user_id m

unfoldable pub insert_session : Session → List Session → List Session
insert_session s [] = s ∷ []
insert_session s (x ∷ xs) =
    if created_before x.created_at s.created_at then x ∷ insert_session s xs else s ∷ x ∷ xs

-- sort.Slice
unfoldable pub sort_sessions : List Session → List Session
sort_sessions [] = []
sort_sessions (s ∷ ss) = insert_session s (sort_sessions ss)

-- The last loop deletes the first `n`.
unfoldable pub evict : ℕ → List Session → Map Session → Map Session
evict zero mine m = m
evict (suc n) [] m = m
evict (suc n) (s ∷ mine) m = evict n mine (erase s.token m)

-- pruneSessions, with the reading of the clock
unfoldable pub prune_sessions : ℕ → Map Session → Ident → ℕ → Map Session
prune_sessions now sessions user_id keep =
    let live = live_sessions now sessions in
    let mine = sessions_of user_id live in
    if leb (length mine) keep then live else evict (length mine - keep) (sort_sessions mine) live

-- MaxSessionsPerUser
abbrev pub max_sessions_per_user : ℕ
max_sessions_per_user = 10

-- SessionTTL, 24 hours
abbrev session_ttl : ℕ
session_ttl = 86400000000000

pub record AuthResponse : Type 0 where
  pub token : Ident
  pub user : UserView

-- createSessionForUser; the readings of `time.Now` are number `i` and the next.
unfoldable pub create_session :
    Inputs → ℕ → AppState → User → Result AppError (AuthResponse × AppState)
create_session inp i state user = or_fail inp.token internal >>= λ token.
    let now = inp.wall (i + 1) in
    let pruned = prune_sessions (inp.wall i) state.sessions user.id (max_sessions_per_user - 1) in
    let session : Session = record {
      token = token;
      user_id = user.id;
      created_at = now;
      expires_at = format_time (now + session_ttl);
      last_seen_at = format_time now;
    } in
    ok (
      record { token = token; user = to_user_view user },
      record state { sessions = insert token session pruned },
    )
