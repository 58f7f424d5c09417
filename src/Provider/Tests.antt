-- ===== src/Provider/Tests.antt =====
-- Runs of the provider, and its theorems at them.
use ram_link.Base.{◌≡◌, refl, arith, [], ◌∷◌, err, value_error, get_elem?, set_slice, some}
use ram_link.Wire.{recv_all}
use ram_link.Wire.Header.{pack_header}
use ram_link.Wire.Op
use ram_link.Connection.{Connected, receive, send_header}
use ram_link.Server.Handle.{Clock}
use ram_link.Server.Transfers.{header_bytes}
use ram_link.Provider.Defs.{RamProvider, transfer, client}
use ram_link.Provider.Table.{IsSound}
use ram_link.Provider.Invariant.{provider_client-IsSound}
use ram_link.Provider.Isolation.{transfer_unleased, transfer_elsewhere}

-- Eight bytes: the first half leased until time 100, the second half until time 5.
abbrev half_leased : Connected RamProvider
half_leased = record {
  server = record {
    size = 8;
    memory = 1 ∷ 2 ∷ 3 ∷ 4 ∷ 5 ∷ 6 ∷ 7 ∷ 8 ∷ [];
    leases =
        (1, record { lease_id = 1; offset = 0; length = 4; expires_at = 100 })
        ∷ (2, record { lease_id = 2; offset = 4; length = 4; expires_at = 5 })
        ∷ [];
    next_lease_id = 3;
  };
  conn = record { input = (9 ∷ 9 ∷ []) ∷ []; output = [] };
}

abbrev at_ten : Clock
at_ten n = 10

-- The WRITE inside the living lease is stored.
write_run :
    (transfer at_ten Op.write 1 2 half_leased).1.server.memory ≡ 1 ∷ 9 ∷ 9 ∷ 4 ∷ 5 ∷ 6 ∷ 7 ∷ 8 ∷ []
unfolding transfer receive recv_all send_header pack_header set_slice
write_run = refl

-- A READ that leaves it is refused, though both halves were leased.
transfer_unleased_run : transfer at_ten Op.read 3 2 half_leased ≡ (err value_error, half_leased)
transfer_unleased_run =
    transfer_unleased at_ten Op.read 3 2 half_leased
      ((λ h. omega (arith, h)), ((λ h. omega (arith, h)), tt))

transfer_elsewhere_example :
    get_elem? (transfer at_ten Op.write 1 2 half_leased).1.server.memory 5 ≡ some 6
transfer_elsewhere_example =
    transfer_elsewhere at_ten Op.write 1 2 5 half_leased (omega arith, (omega arith, tt))
      ((λ h. omega (arith, h)), ((λ h. omega (arith, h)), tt))

half_leased-IsSound : IsSound half_leased.server
half_leased-IsSound = record {
  buffer = refl;
  distinct = (refl, (refl, tt));
  fresh = λ k l e. ground arith;
  named = λ k l e. ground arith;
  bounded = λ k l e. ground arith;
  separate = λ j k l m ne el em. ground arith;
}

-- A WRITE inside the first lease, and another at the end of it.
abbrev two_writes : Connected RamProvider
two_writes = record {
  server = half_leased.server;
  conn = record {
    input = header_bytes Op.write 1 2 ∷ (9 ∷ 8 ∷ []) ∷ header_bytes Op.write 3 2 ∷ [];
    output = [];
  };
}

provider_client-IsSound_example : IsSound (client 3 (λ n. at_ten) 0 two_writes).1.server
provider_client-IsSound_example =
    provider_client-IsSound 3 (λ n. at_ten) 0 two_writes half_leased-IsSound
