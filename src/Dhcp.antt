-- ===== src/Dhcp.antt =====
-- trusted_applet/net.go: the leases of the DHCP client, and what runs while there is one.
pub mod Leases
pub mod Failing
use armored_witness_applet.Prelude.{
  ℕ, zero, suc, ◌+◌, Bool, true, false, ◌&&◌, not, List, [], ◌∷◌, ◌++◌, map, Option, none, some,
  ◌==◌, if◌then◌else◌, ltb, Text, codes, length,
}

-- `tcpip.AddressWithPrefix`, of an address `A`
pub record AddressWithPrefix (A : Type 0) : Type 0 where
  pub address : A
  pub prefix_len : ℕ

-- what the code reads of `dhcp.Config`
pub record Config (A : Type 0) : Type 0 where
  pub dns : List A
  pub router : List A

-- `tcpip.Route`, of the one NIC; `gateway` is left empty in the route of the local segment.
pub record Route (A D : Type 0) : Type 0 where
  pub destination : D
  pub gateway : Option A

-- The goroutine that runs `f`: `never` started, `running`, or `ended`. Once it is started,
-- `cancelChild` is no longer nil.
pub data Child : Type 0 where
  never running ended : Child

-- What the handler `acquired` changes. `f_done` is the number of values in the channel, and
-- `network` the addresses of the stack.
pub record State (A D N : Type 0) : Type 0 where
  pub child : Child
  pub f_done : ℕ
  pub network : N
  pub routes : List (Route A D)
  pub resolvers : List Text

-- How a handler ends: in a state, in a run-time panic, or never, in a receive from a channel.
pub data Outcome (S : Type 0) : Type 0 where
  done : S → Outcome S
  panics : Outcome S
  blocks : Outcome S

abbrev pub and_then : {S T : Type 0} → Outcome S → (S → Outcome T) → Outcome T
and_then (done s) f = f s
and_then panics f = panics
and_then blocks f = blocks

-- What the code calls of the packages tcpip and stack; `none` is an error.
pub record Stack (A D N : Type 0) : Type 0 where
  pub unspecified : A → Bool
  pub same_address : A → A → Bool
  pub show : A → Text
  pub subnet : AddressWithPrefix A → D
  pub empty_subnet : D
  pub add_protocol_address : N → AddressWithPrefix A → Option N
  pub remove_address : N → A → Option N

module _ {A D N : Type 0} (stack : Stack A D N) where
  unfoldable pub same : AddressWithPrefix A → AddressWithPrefix A → Bool
  same a b = stack.same_address a.address b.address && (a.prefix_len == b.prefix_len)

  -- The route of the local segment, and one for each gateway.
  unfoldable pub route_table : AddressWithPrefix A → Config A → List (Route A D)
  route_table addr cfg =
      record { destination = stack.subnet addr; gateway = none }
      ∷ map (λ gw. record { destination = stack.empty_subnet; gateway = some gw }) cfg.router

  unfoldable pub name_servers : List Text → Config A → List Text
  name_servers resolvers cfg =
      if ltb 0 (length cfg.dns) then map (λ r. stack.show r ++ codes ":53") cfg.dns else resolvers

  unfoldable pub configure_net_from_dhcp :
      State A D N → AddressWithPrefix A → Config A → State A D N
  configure_net_from_dhcp s new_addr cfg = record s {
    resolvers = name_servers s.resolvers cfg;
    routes = route_table new_addr cfg;
  }

  -- The goroutine of `f` ends: `f` has returned the error of a cancelled context.
  unfoldable pub exit_child : State A D N → State A D N
  exit_child s = record s { child = ended; f_done = suc s.f_done }

  -- `<-fDone`
  unfoldable pub receive_done : ℕ → State A D N → Outcome (State A D N)
  receive_done zero s = blocks
  receive_done (suc n) s = done (record s { f_done = n })

  -- `cancelChild()`, and the wait for `f`, which returns once its context is cancelled
  unfoldable pub cancel_and_wait : Child → State A D N → Outcome (State A D N)
  cancel_and_wait never s = panics
  cancel_and_wait running s = let s' = exit_child s in receive_done s'.f_done s'
  cancel_and_wait ended s = receive_done s.f_done s

  -- RemoveAddress, whose error is only logged
  unfoldable pub remove : State A D N → A → State A D N
  remove s a = elim (stack.remove_address s.network a) as (λ _. State A D N) [
    | none ↦ s
    | some n ↦ record s { network = n }
  ]

  unfoldable pub lose : State A D N → AddressWithPrefix A → Outcome (State A D N)
  lose s old_addr =
      if stack.unspecified old_addr.address
      then done s
      else and_then (cancel_and_wait s.child s) λ s'. done (remove s' old_addr.address)

  unfoldable pub gain : State A D N → AddressWithPrefix A → Config A → State A D N
  gain s new_addr cfg =
      if stack.unspecified new_addr.address
      then s
      else elim (stack.add_protocol_address s.network new_addr) as (λ _. State A D N) [
        | none ↦ s
        | some n ↦ record (configure_net_from_dhcp (record s { network = n }) new_addr cfg) {
          child = running;
        }
      ]

  unfoldable pub acquired :
      State A D N → AddressWithPrefix A → AddressWithPrefix A → Config A → Outcome (State A D N)
  acquired s old_addr new_addr cfg =
      if same old_addr new_addr
      then done (configure_net_from_dhcp s new_addr cfg)
      else and_then (lose s old_addr) λ s'. done (gain s' new_addr cfg)
