-- ===== src/Net/Connector/Tests.antt =====
-- windz/net/Connector.cpp at concrete inputs.
use windz.Prelude.{refl, true, false, [], some, none, Returns}
use windz.Net.Channel.{Channel}
use windz.Net.Connector.{Connector, disconnected, connecting, init_retry_duration}
use windz.Net.Connector.Backoff.{IsPaced, attempts, attempts-IsPaced}

abbrev started : Connector
started = record {
  start = true;
  state = disconnected;
  channel = none;
  retry_duration = init_retry_duration;
  tasks = [];
  delays = [];
  given = 0;
  closed = 0;
}

abbrev watched : Channel
watched = record { reading = false; writing = true; registered = true; handled = true }

abbrev trying : Connector
trying = record started { state = connecting; channel = some watched }

attempts-IsPaced_example : Returns (IsPaced [] 0 10) (attempts 10 started)
attempts-IsPaced_example = attempts-IsPaced 10 started refl refl refl
