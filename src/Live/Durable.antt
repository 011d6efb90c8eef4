-- ===== src/Live/Durable.antt =====
-- The settings of a running server, from the request that writes them to one that reads them.
use atx_sys.Common.{
  if◌then◌else◌, ℕ, suc, ◌≡◌, refl, ◌∙◌, ◌<◌, ◌^◌, true, false, List, [], ◌∷◌, Option, none, some,
  Bytes, codes, length, ok, arith, ◌⊎◌, inl, inr, Bool,
}
use atx_sys.Json.{parsed}
use atx_sys.Json.Layout.{Node, layout}
use atx_sys.Network.{NetworkConfig, print_network_config, print_network_interface}
use atx_sys.Network.RoundTrip.{SpansTexts}
use atx_sys.Network.Parse.{settings_of}
use atx_sys.Http.{Response}
use atx_sys.Http.Codes.{get_method}
use atx_sys.Http.Format.{IsPlain}
use atx_sys.Http.Routes.{RouteMap}
use atx_sys.Http.Sent.{sent}
use atx_sys.Http.Sent.Client.{read_response, read_response-sent}
use atx_sys.Http.Server.{Handler}
use atx_sys.RouteNetwork.{Disk, put}
use atx_sys.RouteNetwork.Put.{Puts, put-Puts}
use atx_sys.System.{Config, is_set, size, port_of}
use atx_sys.System.Boot.{PrintedTokens}
use atx_sys.System.Create.{Machine, Started, atxsys_create}
use atx_sys.System.Create.Life.{atxsys_create-print}
use atx_sys.RouteNetwork.ReadBack.{route_network_get-put}
use atx_sys.Api.Network.{ask, Listens, respond-network}
use atx_sys.Live.{
  requested, Output, answered, Host, Device, Turn, world_of, take_incoming, live_loop,
}
use atx_sys.Live.Keeps.{writes_until, live_loop-Settled}

clash : (b : Bool) → b ≡ false → b ≡ true → ⊥
clash b no_write write = cc

unwritten : {A : Type 0} (b : Bool) → b ≡ false → (b ≡ true) ⊎ A → A
unwritten b no_write (inl write) = absurd (clash b no_write write)
unwritten b no_write (inr a) = a

module _ (ops : RouteMap Handler) (h : Host) where
  open ops use {Map}

  -- What a client that sends the body by the method to the settings' path reads, with the server then.
  abbrev pub Reads : Disk → Bytes → Bytes → Device Map → Device Map → Response → Type 0
  Reads disk method body d d' r =
      (bytes : Bytes) × (take_incoming ops h (requested disk (ask method body)) d
        ≡ ok (d', answered bytes ∷ []))
      × (read_response bytes ≡ some r)

  Reads-network :
      (disk : Disk) (method body : Bytes) (d : Device Map) (settings : Option Bytes) (r : Response)
      → Listens ops (world_of d)
      → r.code < 10 ^ 10
      → length r.body < 2 ^ 31
      → atx_sys.RouteNetwork.route_network h.outside.jsmn disk d.settings
          (get_method method)
          (length body)
          body
        ≡ ok (settings, some r)
      → Reads disk method body d (record d { settings = settings }) r
  unfolding take_incoming
  Reads-network disk method body d settings r listens small short e = (
    sent r,
    rw (respond-network ops h.outside disk method body (world_of d) settings (some r) listens e),
    read_response-sent r small short,
  )

  -- On a server with the routes of http_listen alone, given the tokens of the body's document with
  -- its five settings, a PUT of the settings for which fopen, fprintf and fclose succeed is
  -- answered with what a client reads as 200 and "ok"; and behind any run of the program's loop
  -- that does not fault and in whose rounds no request has a method that begins with "P", each of
  -- which the code takes for a PUT or a POST, with all its other requests, uploads, polls and
  -- signals, a GET is answered with what a client reads as 200 and the settings in the file's
  -- format, if that text has no percent sign, no NUL and fewer than 2^31 bytes.
  pub live_loop-put_get :
      (disk : Disk) (b : Bytes) (k : ℕ) (v : Node) (c : NetworkConfig) (ts : List Turn)
      (running : Bool) (d end : Device Map) (n : ℕ) (outs : List Output)
      → Listens ops (world_of d)
      → h.outside.jsmn b (length b) 256 ≡ parsed (suc k) (layout v)
      → settings_of b v ≡ some c
      → disk.opens ≡ true
      → disk.prints ≡ true
      → disk.closes ≡ true
      → IsPlain (print_network_config c)
      → length (print_network_config c) < 2 ^ 31
      → writes_until n ts ≡ false
      → live_loop ops h ts running (record d { settings = some (print_network_config c) })
        ≡ ok (n, end, outs)
      → Reads disk
          (codes "PUT")
          b
          d
          (record d { settings = some (print_network_config c) })
          (record { code = 200; body = codes "{\"error\":\"ok\"}" })
        × Reads disk (codes "GET") [] end end (record { code = 200; body = print_network_config c })
  unfolding atx_sys.RouteNetwork.route_network get_method
  live_loop-put_get disk b k v c ts running d end n outs listens tokens found opens prints closes
        plain short no_write e =
      let text : Bytes = print_network_config c in
      let d' : Device Map = record d { settings = some text } in
      let (put, get) =
        route_network_get-put h.outside.jsmn disk d.settings (length b) b k v c tokens found opens
          prints closes plain in
      let (same, kept) = live_loop-Settled ops h ts running d' end n outs e in
      let still : end.settings ≡ some text = unwritten (writes_until n ts) no_write kept in
      let got : atx_sys.RouteNetwork.route_network h.outside.jsmn disk end.settings
            (get_method (codes "GET")) 0 []
          ≡ ok (end.settings, some (record { code = 200; body = text })) =
        rw still get in
      (
        Reads-network disk (codes "PUT") b d (some text) _ listens (omega arith) (omega arith) put,
        Reads-network disk (codes "GET") [] end end.settings _ (same.0 ∙ listens) (omega arith)
            short got,
      )

  -- On a server with the routes of http_listen alone, given the tokens of the body's document with
  -- its five settings, which span texts without a NUL, a PUT of the settings for which fopen,
  -- fprintf and fclose succeed is answered with what a client reads as 200 and "ok"; and behind any
  -- run of the program's loop that does not fault and in whose rounds no request has a method that
  -- begins with "P", each of which the code takes for a PUT or a POST, the next start of the
  -- program, on a host with memory, whose port can be bound, without -d and with the path set, that
  -- finds the file as it was left and the tokens of its text, of fewer than 2048 bytes, writes no
  -- settings and prints the interfaces file, if it opens, of the settings that were put.
  pub live_loop-put_restart :
      (disk : Disk) (b : Bytes) (k : ℕ) (v : Node) (c : NetworkConfig) (ts : List Turn)
      (running : Bool) (d end : Device Map) (n : ℕ) (outs : List Output) (mach : Machine)
      (conf : Config) (m hn i s g : Bytes)
      → Listens ops (world_of d)
      → h.outside.jsmn b (length b) 256 ≡ parsed (suc k) (layout v)
      → settings_of b v ≡ some c
      → disk.opens ≡ true
      → disk.prints ≡ true
      → disk.closes ≡ true
      → writes_until n ts ≡ false
      → live_loop ops h ts running (record d { settings = some (print_network_config c) })
        ≡ ok (n, end, outs)
      → SpansTexts c m hn i s g
      → PrintedTokens h.outside.jsmn c m hn i s g
      → mach.allocates ≡ true
      → mach.bound (port_of conf) ≡ true
      → conf.daemon ≡ false
      → is_set conf.usr ≡ true
      → length (print_network_config c) < 2048
      → mach.user_file.stat ≡ size (length (print_network_config c))
      → mach.user_file.content ≡ end.settings
      → Reads disk
          (codes "PUT")
          b
          d
          (record d { settings = some (print_network_config c) })
          (record { code = 200; body = codes "{\"error\":\"ok\"}" })
        × ((next : Started Map) × (atxsys_create ops h.outside.jsmn mach conf ≡ ok next)
            × (next.created ≡ none)
            × (next.interfaces
                ≡ (if mach.interfaces_open then some (print_network_interface c) else none)))
  unfolding atx_sys.RouteNetwork.route_network get_method
  live_loop-put_restart disk b k v c ts running d end n outs mach conf m hn i s g listens tokens
        found opens prints closes no_write e given printed there bound front set short size_is
        content =
      let text : Bytes = print_network_config c in
      let done : Puts disk d.settings (some c) (put h.outside.jsmn disk d.settings (length b) b) =
        rw found at (put-Puts h.outside.jsmn disk d.settings (length b) b k v tokens) in
      let (same, kept) =
        live_loop-Settled ops h ts running (record d { settings = some text }) end n outs e in
      let still : end.settings ≡ some text = unwritten (writes_until n ts) no_write kept in
      (
        Reads-network disk (codes "PUT") b d (some text) _ listens (omega arith) (omega arith)
            (rw (done, opens, prints, closes)),
        (
          _,
          atxsys_create-print ops h.outside.jsmn mach conf c m hn i s g given printed there bound
              front set short size_is (content ∙ still),
          refl,
          refl,
        ),
      )
