-- ===== src/Streamlet/Node.antt =====
-- lib.rs, `StreamletInstance::run`: all that the event loop of a node and its timer thread share.
-- A handler runs to its end between two ticks of the timer, and a tick is one step.
use streamlet_transparency_l.Prelude.{ℕ, Bool, false, Option, none, List, []}
use streamlet_transparency_l.Prelude.Outcome.{Outcome, done, ◌>>=◌}
use streamlet_transparency_l.Prelude.Bytes.{Bytes, bytes}
use streamlet_transparency_l.Crypto.{Crypto}
use streamlet_transparency_l.Blockchain.Block.{SignedBlock}
use streamlet_transparency_l.Blockchain.Chain.{LocalChain}
use streamlet_transparency_l.Message.{Message, Codec, serialize}
use streamlet_transparency_l.Network.{Gossip, NetworkStack, broadcast_message, open_init_channel}
use streamlet_transparency_l.Network
use streamlet_transparency_l.Network.Peers.{Peers}
use streamlet_transparency_l.Network.Peers
use streamlet_transparency_l.App.Interface
use streamlet_transparency_l.Streamlet.{StreamletInstance}

-- What the program calls and does not implement.
pub record Env : Type 0 where
  pub crypto : Crypto
  pub codec : Codec
  pub gossip : Gossip

-- Answers to requests over TCP, before they are serialized.
pub data TcpData : Type 0 where
  chain : LocalChain → TcpData
  block : SignedBlock → TcpData

pub record Node : Type 0 where
  pub streamlet : StreamletInstance
  -- Shared with the timer thread under locks.
  pub current_epoch : ℕ
  pub vote_this_epoch : Option Bytes
  -- The timer thread runs, and has sent a tick that the loop has not yet handled.
  pub timer_started : Bool
  pub tick_pending : Bool
  pub net_stack : NetworkStack
  pub peers : Peers
  pub local_addr : Bytes
  -- Sent to the TCP thread, and written to the node's and to the public file.
  pub tcp_data : List TcpData
  pub local_log : List SignedBlock
  pub public_log : List SignedBlock

-- The set-up at the top of `run`.
unfoldable pub start : Env → StreamletInstance → Bytes → ℕ → Outcome Node
start env streamlet local_addr rand = do
  opened ← open_init_channel env.gossip (Network.new (bytes "streamlet"))
  net ← Interface.new env.gossip opened
  done (record {
    streamlet = streamlet;
    current_epoch = 1;
    vote_this_epoch = none;
    timer_started = false;
    tick_pending = false;
    net_stack = net;
    peers = Peers.new streamlet.name streamlet.keypair.public streamlet.expected_peer_count rand;
    local_addr = local_addr;
    tcp_data = [];
    local_log = [];
    public_log = [];
  })

-- `net_stack.broadcast_message(message.serialize())`
unfoldable pub broadcast : Env → Node → Message → Outcome Node
broadcast env node message = do
  net ← broadcast_message env.gossip node.net_stack (serialize env.codec message)
  done (record node { net_stack = net })
