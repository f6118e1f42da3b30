-- ===== src/Tests/Attempts.antt =====
-- The theorems on the attempts, through an HTTP proxy, with a payload that is answered.
use sshcustom_magisk.Base.{◌≡◌, refl, true, false, [], ◌∷◌, none, some}
use sshcustom_magisk.Base.Int.{pos}
use sshcustom_magisk.Text.{codes}
use sshcustom_magisk.Profiles.{Profile, HttpProxyCfg, PayloadCfg}
use sshcustom_magisk.Profiles.Transport.{http_proxy, build_transport}
use sshcustom_magisk.Dialling.{Outside, Wire, fine, timed_out, live, Outcome, Conn}
use sshcustom_magisk.Pool.System.{ProbeResult}
use sshcustom_magisk.Dialling.Tcp.{dial_tcp_resolved}
use sshcustom_magisk.Dialling.Opened.{Opens, dial_tcp_resolved-Opens}
use sshcustom_magisk.Dialling.Prepare.{attempt_ssh_auth, attempt_transport}
use sshcustom_magisk.Dialling.Balanced.{Closes, attempt_ssh_auth-Closes, attempt_transport-live}
use sshcustom_magisk.Tests.Settings.{settings}
use sshcustom_magisk.Tests.ProfilesFile.{ssh}

abbrev proxy : HttpProxyCfg
proxy = record {
  connect_method = codes "DIRECT";
  host = codes "proxy.example";
  port = pos 8080;
  fallback_ips = codes "192.0.2.9" ∷ [];
}

abbrev payload : PayloadCfg
payload = record {
  enabled = true;
  template = codes "GET / HTTP/1.1[crlf]Host: [host][crlf][crlf]";
  send_timing = [];
  read_response = true;
  allow_statuses = [];
}

abbrev profile : Profile
profile = record {
  id = codes "p";
  name = codes "p";
  selected = true;
  ssh = ssh;
  transport = build_transport http_proxy payload (some proxy) none ssh;
}

-- A world where each connection is made, and the proxy answers and passes on the SSH banner.
abbrev outside : Outside
outside = record {
  dial = λ log addr. none;
  write = λ log bytes. none;
  reads = λ log.
      record { bytes = codes "HTTP/1.1 200 OK\r\n\r\nSSH-2.0-test\r\n"; ending = fine }
      ∷ record { bytes = []; ending = timed_out }
      ∷ [];
  handshake = λ log name insecure versions. none;
  authenticate = λ log addr user password. none;
  resolver = λ log. record {
    carrier = [];
    direct = λ host servers. codes "192.0.2.7" ∷ [];
    shell = λ host. [];
  };
  now = λ log. 0;
  done = λ log. 5;
  nanos = λ log. 0;
  ipv4 = λ s. some s;
  literal = λ s. none;
  has_port = λ s. false;
  shuffle = λ pairs. pairs;
}

abbrev nothing_done : Wire
nothing_done = record { log = []; cache = [] }

dial_tcp_resolved-Opens_example :
    Opens outside []
      (dial_tcp_resolved outside settings (codes "ssh.example") (pos 22) [] nothing_done)
unfolding live
dial_tcp_resolved-Opens_example =
    dial_tcp_resolved-Opens outside [] settings (codes "ssh.example") (pos 22) [] nothing_done refl

attempt_ssh_auth-Closes_example : Closes [] (attempt_ssh_auth outside settings profile nothing_done)
unfolding live
attempt_ssh_auth-Closes_example =
    attempt_ssh_auth-Closes outside [] settings profile nothing_done refl

attempt_transport-live_example :
    live (attempt_transport outside settings profile nothing_done).1.log ≡ []
unfolding live
attempt_transport-live_example =
    attempt_transport-live outside [] settings profile nothing_done refl

abbrev shown : Outcome (Conn × ProbeResult) × Wire
shown = attempt_ssh_auth outside settings profile nothing_done
