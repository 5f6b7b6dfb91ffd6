-- ===== src/Capture/Open.antt =====
-- The opening of a packet source in capture/capture.go; what pcap does is a parameter.
pub mod Ports
mod Tests
use memsniff.Mctext.Text.{codes}
use memsniff.Decimal.{itoa}
use memsniff.Word.{wrap, ◌*ℤ◌}
use memsniff.Capture.Collect.{snap_len}
use memsniff.Common.{
  ℕ, zero, suc, ◌+◌, ◌*◌, Bool, true, false, not, ◌&&◌, List, [], ◌∷◌, ◌++◌, Option, none, some,
  if◌then◌else◌, ℤ, pos,
}

-- ErrNoSource, ErrAmbiguousSource, the error of portFilter, and those of pcap, by a number.
pub data OpenError : Type 0 where
  no_source ambiguous_source no_port : OpenError
  pcap_error : ℕ → OpenError

pub data Result (A : Type 0) : Type 0 where
  ok : A → Result A
  error : OpenError → Result A

infixl 20 ◌>>=◌
abbrev ◌>>=◌ : {A B : Type 0} → Result A → (A → Result B) → Result B
ok a >>= f = f a
error e >>= f = error e

abbrev pub is_empty : List ℕ → Bool
is_empty [] = true
is_empty (c ∷ cs) = false

-- The calls of pcap: on a handle that is not active yet, OpenOffline, and SetBPFFilter. A timeout is
-- in milliseconds.
pub record Pcap (Inactive Handle : Type 0) : Type 0 where
  pub new_inactive : List ℕ → Result Inactive
  pub set_snap_len : Inactive → ℕ → Result Inactive
  pub set_promisc : Inactive → Bool → Result Inactive
  pub set_timeout : Inactive → ℕ → Result Inactive
  pub set_buffer_size : Inactive → ℤ → Result Inactive
  pub activate : Inactive → Result Handle
  pub open_offline : List ℕ → Result Handle
  pub set_filter : Handle → List ℕ → Result Handle

-- A source reads the handle itself, or a replayer does, with a buffer of that size.
pub data Opened (Handle : Type 0) : Type 0 where
  direct : Handle → Opened Handle
  replayed : Handle → ℕ → ℕ → Opened Handle

-- The clauses behind the first one.
unfoldable pub more_ports : List ℤ → List ℕ
more_ports [] = []
more_ports (port ∷ ports) = codes " or tcp port " ++ (itoa port ++ more_ports ports)

unfoldable pub port_filter : List ℤ → Result (List ℕ)
port_filter [] = error no_port
port_filter (port ∷ ports) = ok (codes "tcp port " ++ (itoa port ++ more_ports ports))

module _ {Inactive Handle : Type 0} (pcap : Pcap Inactive Handle) where
  unfoldable pub new_live_capture : List ℕ → ℤ → Result Handle
  new_live_capture net_interface buffer_size = do
    inactive ← pcap.new_inactive net_interface
    snapped ← pcap.set_snap_len inactive snap_len
    promiscuous ← pcap.set_promisc snapped true
    timed ← pcap.set_timeout promiscuous 10
    sized ← pcap.set_buffer_size timed (wrap (buffer_size *ℤ pos (1024 * 1024)))
    pcap.activate sized

  unfoldable pub make_handle : List ℕ → List ℕ → ℤ → Result Handle
  make_handle net_interface infile buffer_size =
      if not (is_empty net_interface) && not (is_empty infile)
      then error ambiguous_source
      else if not (is_empty net_interface)
      then new_live_capture net_interface buffer_size
      else if not (is_empty infile)
      then pcap.open_offline infile
      else error no_source

  -- New
  unfoldable pub new_source : List ℕ → List ℕ → ℤ → Bool → List ℤ → Result (Opened Handle)
  new_source net_interface infile buffer_size no_delay ports = do
    handle ← make_handle net_interface infile buffer_size
    bpf ← port_filter ports
    filtered ← pcap.set_filter handle bpf
    ok (
        if not no_delay && not (is_empty infile)
        then replayed filtered 1000 (8 * 1024 * 1024)
        else direct filtered)
