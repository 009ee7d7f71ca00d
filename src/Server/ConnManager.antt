-- ===== src/Server/ConnManager.antt =====
-- The two maps of server/sfu_server/SfuConnManager.cpp: CreateSession, RemoveSession,
-- RemoveSessionByAddr, GetSession and GetSessionByAddr. An address is the string that NetAddr::ToKey
-- makes of it, and a socket is its number.
pub mod Invariant
pub mod Lookup
use tj_rtc.Prelude.{
  ℕ, ◌≡◌, Bool, true, false, not, Option, none, some, List, [], Assoc, Key, find, erase, put,
  number_key, string_key, if◌then◌else◌,
}

-- A session as CreateSession makes it; its counts and its buffer are empty. `reading` says whether the
-- watcher of ReadCb runs.
pub record Session : Type 0 where
  pub fd : ℕ
  pub is_tcp : Bool
  pub remote_addr : List ℕ
  pub reading : Bool

pub record ConnManager : Type 0 where
  pub session_map : Assoc ℕ Session
  pub addr_fd_map : Assoc (List ℕ) ℕ

unfoldable pub get_session : ConnManager → ℕ → Option Session
get_session m fd = find number_key m.session_map fd

abbrev pub session_of : ConnManager → Option ℕ → Option Session
session_of m none = none
session_of m (some fd) = find number_key m.session_map fd

unfoldable pub get_session_by_addr : ConnManager → List ℕ → Option Session
get_session_by_addr m addr = session_of m (find string_key m.addr_fd_map addr)

abbrev pub new_session : ℕ → Bool → List ℕ → Session
new_session fd is_tcp addr = record {
  fd = fd;
  is_tcp = is_tcp;
  remote_addr = addr;
  reading = not is_tcp;
}

abbrev pub add_session : ConnManager → ℕ → Bool → List ℕ → ConnManager × Session
add_session m fd is_tcp addr = (
  record {
    session_map = put number_key m.session_map fd (new_session fd is_tcp addr);
    addr_fd_map = put string_key m.addr_fd_map addr fd;
  },
  new_session fd is_tcp addr,
)

-- `if (!isTcp && …) return existingIt->second;`
abbrev pub create_unless : ConnManager → ℕ → Bool → List ℕ → Option Session → ConnManager × Session
create_unless m fd true addr existing = add_session m fd true addr
create_unless m fd false addr none = add_session m fd false addr
create_unless m fd false addr (some s) = (m, s)

abbrev pub create_unless_fd :
    ConnManager → ℕ → Bool → List ℕ → Option Session → ConnManager × Session
create_unless_fd m fd is_tcp addr (some s) = (m, s)
create_unless_fd m fd is_tcp addr none =
    create_unless m fd is_tcp addr (session_of m (find string_key m.addr_fd_map addr))

unfoldable pub create_session : ConnManager → ℕ → Bool → List ℕ → ConnManager × Session
create_session m fd is_tcp addr =
    create_unless_fd m fd is_tcp addr (find number_key m.session_map fd)

abbrev pub remove_found : ConnManager → ℕ → Option Session → ConnManager
remove_found m fd none = m
remove_found m fd (some s) = record {
  session_map = erase number_key m.session_map fd;
  addr_fd_map = erase string_key m.addr_fd_map s.remote_addr;
}

unfoldable pub remove_session : ConnManager → ℕ → ConnManager
remove_session m fd = remove_found m fd (find number_key m.session_map fd)

-- The session of a socket that the map of addresses names is erased if it is there.
abbrev pub remove_found_by_addr : ConnManager → List ℕ → Option ℕ → ConnManager
remove_found_by_addr m addr none = m
remove_found_by_addr m addr (some fd) = record {
  session_map = erase number_key m.session_map fd;
  addr_fd_map = erase string_key m.addr_fd_map addr;
}

unfoldable pub remove_session_by_addr : ConnManager → List ℕ → ConnManager
remove_session_by_addr m addr = remove_found_by_addr m addr (find string_key m.addr_fd_map addr)
