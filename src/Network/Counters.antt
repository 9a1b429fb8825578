-- ===== src/Network/Counters.antt =====
-- src/read_write_loop_sender.c and src/read_write_loop.c: what holds of the statistics in every
-- interleaving of the two loops.
use trtp_network.Prelude.{Ends-some}
use trtp_network.Build.{Machine}
use trtp_network.Receiver.Counters.{tally, IsBalanced, round-Good}
use trtp_network.Receiver.Steps.{Next}
use trtp_network.Receiver.{Receiver}
use trtp_network.Network.{
  Net, Step, Reach, here, next, Run, stop, go, sender_sends, sender_hears, receiver_hears,
  receiver_ends, sender_waits, receiver_sends, receiver_waits, sender_only_hears,
  receiver_only_hears, receiver_only_ends, data_lost, answer_lost,
}

abbrev Balanced : Next × Receiver → Type 0
Balanced i = IsBalanced (tally i.1)

Step-IsBalanced :
    {ms mr : Machine} (t u : Net)
    → Step ms mr t u
    → IsBalanced (tally t.receiver)
    → IsBalanced (tally u.receiver)
Step-IsBalanced t _ (sender_sends _ s h) b = b
Step-IsBalanced t _ (sender_hears _ d s at h) b = b
Step-IsBalanced {mr} t _ (receiver_hears _ d now r running at h) b =
    Ends-some Balanced _ (round-Good mr t.receiver _ b) h
Step-IsBalanced {mr} t _ (receiver_ends _ d now r running at h) b =
    Ends-some Balanced _ (round-Good mr t.receiver _ b) h
Step-IsBalanced t _ (sender_waits _ s h) b = b
Step-IsBalanced {mr} t _ (receiver_sends _ now r running h) b =
    Ends-some Balanced _ (round-Good mr t.receiver _ b) h
Step-IsBalanced {mr} t _ (receiver_waits _ now r running h) b =
    Ends-some Balanced _ (round-Good mr t.receiver _ b) h
Step-IsBalanced t _ (sender_only_hears _ d s at h) b = b
Step-IsBalanced {mr} t _ (receiver_only_hears _ d now r running at h) b =
    Ends-some Balanced _ (round-Good mr t.receiver _ b) h
Step-IsBalanced {mr} t _ (receiver_only_ends _ d now r running at h) b =
    Ends-some Balanced _ (round-Good mr t.receiver _ b) h
Step-IsBalanced t _ (data_lost _ h) b = b
Step-IsBalanced t _ (answer_lost _ h) b = b

-- However the rounds of the two loops follow each other, and whichever datagrams are lost: from a
-- state where the receiver's counters are Balanced, every state that is reached has them Balanced.
pub Reach-IsBalanced :
    {ms mr : Machine} {t u : Net}
    → Reach ms mr t u
    → IsBalanced (tally t.receiver)
    → IsBalanced (tally u.receiver)
Reach-IsBalanced here b = b
Reach-IsBalanced (next {t} {u} step steps) b = Reach-IsBalanced steps (Step-IsBalanced t u step b)

pub Run-Reach : {ms mr : Machine} {t u : Net} → Run ms mr t u → Reach ms mr t u
Run-Reach stop = here
Run-Reach (go step kept run) = next step (Run-Reach run)
