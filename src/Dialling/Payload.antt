-- ===== src/Dialling/Payload.antt =====
-- What is written to and read from a connection before SSH: `renderPayload`, `httpCONNECT`,
-- `readSome` and `readProbe`.
use sshcustom_magisk.Base.{
  ℕ, Bool, false, not, ◌&&◌, List, [], ◌∷◌, ◌++◌, Option, none, some, leb, if◌then◌else◌, length,
}
use sshcustom_magisk.Base.Int.{ℤ, pos, negsuc}
use sshcustom_magisk.Text.{Text, codes, is_empty, contains, replace_all}
use sshcustom_magisk.Net.{join_host_port, int_string}
use sshcustom_magisk.Profiles.{Profile, HttpProxyCfg, TlsCfg}
use sshcustom_magisk.Responses.{crlf, extract_http_statuses}
use sshcustom_magisk.Dialling.{
  Outside, Wire, sent, received, note, Conn, Chunk, ReadEnd, fine, timed_out, at_eof, broken, Cause,
  connect_write, connect_read, connect_without_status, connect_refused,
}

abbrev pub sni_of : Option TlsCfg → Text
sni_of none = []
sni_of (some tls) = tls.server_name

abbrev pub proxy_host_of : Option HttpProxyCfg → Text
proxy_host_of none = []
proxy_host_of (some proxy) = proxy.host

abbrev pub proxy_port_of : Option HttpProxyCfg → Text
proxy_port_of none = []
proxy_port_of (some proxy) = int_string proxy.port

-- The map `repl`.
unfoldable pub replacements : Profile → List (Text × Text)
unfolding int_string
replacements p =
    (codes "[crlf]", crlf)
    ∷ (codes "[lf]", 10 ∷ [])
    ∷ (codes "[host]", p.ssh.host)
    ∷ (codes "[port]", int_string p.ssh.port)
    ∷ (codes "[ssh_host]", p.ssh.host)
    ∷ (codes "[ssh_port]", int_string p.ssh.port)
    ∷ (codes "[sni]", sni_of p.transport.tls)
    ∷ (codes "[proxy_host]", proxy_host_of p.transport.http_proxy)
    ∷ (codes "[proxy_port]", proxy_port_of p.transport.http_proxy)
    ∷ []

-- The loop over the map, in some order.
unfoldable pub replace_each : List (Text × Text) → Text → Text
unfolding replace_all
replace_each [] out = out
replace_each ((k, v) ∷ rest) out = replace_each rest (replace_all k v out)

-- `renderPayload`.
unfoldable pub render_payload : (List (Text × Text) → List (Text × Text)) → Text → Profile → Text
unfolding replace_each replacements
render_payload shuffle template p = replace_each (shuffle (replacements p)) template

-- What a read gives, or its error.
pub data Got : Type 0 where
  got : Text → Got
  lost : Text → Got

-- `readSome`: one read.
abbrev pub ending_error : ReadEnd → Text
ending_error fine = codes "empty response"
ending_error timed_out = codes "i/o timeout"
ending_error at_eof = codes "EOF"
ending_error (broken e) = e

unfoldable pub read_some : List Chunk → Got
read_some [] = lost (codes "i/o timeout")
read_some (c ∷ _) = if is_empty c.bytes then lost (ending_error c.ending) else got c.bytes

abbrev pub probe_limit : ℕ
probe_limit = 65536

-- The end of `readProbe`.
abbrev pub enough : Text → Got
enough out = if is_empty out then lost (codes "no bytes received before timeout") else got out

-- What follows a read, by how it has ended.
abbrev pub by_ending : ReadEnd → Text → Got → Got
by_ending fine more again = again
by_ending timed_out more again = enough more
by_ending at_eof more again = enough more
by_ending (broken e) more again = lost e

-- The loop of `readProbe`. Where the list ends the deadline passes.
unfoldable pub read_probe : Text → List Chunk → Got
unfolding contains
read_probe out [] = enough out
read_probe out (c ∷ chunks) =
    let more = out ++ c.bytes in
    let again = read_probe more chunks in
    if leb probe_limit (length out)
    then enough out
    else if not (is_empty c.bytes) && contains more (codes "SSH-")
    then got more
    else by_ending c.ending more again

abbrev pub between : ℕ → ℕ → ℤ → Bool
between low high (pos n) = leb low n && leb n high
between low high (negsuc n) = false

abbrev pub connect_answer : List ℤ → Option Cause
connect_answer [] = some connect_without_status
connect_answer (s ∷ _) = if between 200 299 s then none else some (connect_refused s)

abbrev pub connect_reply : Got → Option Cause
connect_reply (lost e) = some (connect_read e)
connect_reply (got bytes) = connect_answer (extract_http_statuses bytes)

-- The request of `httpCONNECT`.
unfoldable pub connect_text : Profile → Text
unfolding join_host_port int_string
connect_text p =
    let target = join_host_port p.ssh.host (int_string p.ssh.port) in
    codes "CONNECT "
    ++ (target
        ++ (codes " HTTP/1.1"
            ++ (crlf
                ++ (codes "Host: "
                    ++ (target
                        ++ (crlf ++ (codes "Proxy-Connection: Keep-Alive" ++ (crlf ++ crlf))))))))

module _ (o : Outside) where
  -- `io.WriteString`.
  unfoldable pub send : Conn → Text → Wire → Option Text × Wire
  send c bytes w = (o.write w.log bytes, note (sent c.base bytes) w)

  -- The reads on a connection up to its deadline.
  unfoldable pub receive : Conn → Wire → List Chunk × Wire
  receive c w = (o.reads w.log, note (received c.base) w)

  abbrev pub after_request : Conn → Option Text × Wire → Option Cause × Wire
  after_request c (some e, w) = (some (connect_write e), w)
  after_request c (none, w) =
      let (chunks, w') = receive c w in (connect_reply (read_some chunks), w')

  -- `httpCONNECT`: its error, if it has one.
  unfoldable pub http_connect : Conn → Profile → Wire → Option Cause × Wire
  unfolding send receive connect_text read_some extract_http_statuses
  http_connect c p w = after_request c (send c (connect_text p) w)
