-- ===== src/Assembly/Tests.antt =====
-- Runs of assembly/streamfactory.go: a client's port 5000 and the server's port 11211.
use memsniff.Assembly.{
  NetFlow, TransportFlow, StreamFactory, is_from_server, src_port, is_in_portlist, find,
}
use memsniff.Assembly.Pairs.{Pairs, new-Pairs}
use memsniff.Common.{◌≡◌, refl, true, false, [], ◌∷◌, some}

abbrev factory : StreamFactory
factory = record { memcache_ports = 11211 ∷ []; half_open = []; made = 4 }

abbrev net : NetFlow
net = record { src = 1; dst = 2 }

abbrev transport : TransportFlow
transport = record { tcp = true; src = 5000; dst = 11211 }

from_client : is_from_server factory transport ≡ some false
unfolding is_from_server src_port is_in_portlist
from_client = refl

from_server : is_from_server factory (record { tcp = true; src = 11211; dst = 5000 }) ≡ some true
unfolding is_from_server src_port is_in_portlist
from_server = refl

new-Pairs_example : Pairs factory net transport
new-Pairs_example = new-Pairs factory net transport from_client from_server (unfold find in refl)
