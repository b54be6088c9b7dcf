-- ===== src/Servers/Named.antt =====
-- tcpc_dns.c: tcpc.c with the server's address from the argument, in digits or as a name.
use linux_system_programming.Prelude.{ℕ, ◌≡◌, Option, none, some, List, [], ◌∷◌, if◌then◌else◌}
use linux_system_programming.ChatClient.{Net, isdigit}
use linux_system_programming.Servers.Message.{Progress, done, stopped, undefined, ◌>>=◌, MsgType}
use linux_system_programming.Servers.Stream.{ClientCalls, Asked, ask, tcp_client}

-- `gethostbyname`, whose failure ends the program.
abbrev pub found_host : Option ℕ → Progress ℕ
found_host none = stopped 1
found_host (some address) = done address

-- `isdigit(argv[1][0])` is 0 for the NUL of an empty argument.
unfoldable pub resolve : Net → List ℕ → Progress ℕ
resolve net [] = found_host (net.gethostbyname [])
resolve net (ch ∷ host) =
    if isdigit ch
    then done (net.inet_addr (ch ∷ host))
    else found_host (net.gethostbyname (ch ∷ host))

-- What follows once the address is known.
abbrev pub connect_and_ask : Net → ℕ → ℕ → MsgType → ClientCalls → ℕ → Progress Asked
connect_and_ask net fd pid m calls address =
    if net.connect fd address then ask pid m calls else stopped 1

-- `main` of tcpc_dns.c, with the argument, if there is one; `calls` tells what `write` and `read` answer.
-- Without an argument the program leaves what C defines.
unfoldable pub tcp_client_dns : Net → ℕ → MsgType → ClientCalls → Option (List ℕ) → Progress Asked
tcp_client_dns net pid m calls arg = elim net.socket [
  | none ↦ stopped 1
  | some fd ↦ elim arg [
    | none ↦ undefined
    | some host ↦ resolve net host >>= connect_and_ask net fd pid m calls
  ]
]

-- Once the address is known, tcpc_dns.c is tcpc.c for that address.
pub tcp_client_dns-tcp_client :
    (net : Net) (pid fd : ℕ) (m : MsgType) (calls : ClientCalls) (host : List ℕ)
    → net.socket ≡ some fd
    → tcp_client_dns net pid m calls (some host) ≡ (
        resolve net host >>= (λ address.
          tcp_client pid m
            (record calls { socket = some fd; connect_ok = net.connect fd address })))
unfolding tcp_client_dns tcp_client ask
tcp_client_dns-tcp_client net pid fd m calls host opened = rw (opened)
