-- ===== src/Config/Server.antt =====
-- HttpConfig.cpp: the configuration of the HTTP server.
use rpi_cam.Base.{subst, ℕ, Option, none, some, String, ◌≡◌, ap, arith}
use rpi_cam.Base.Int.{ℤ}
use rpi_cam.Base.Outcome.{Outcome, ok, ok-injective}
use rpi_cam.Config.Tree.{Tree, get_string, get_int, reading, reading-eq-ok, HasInt, HasString}

-- `class HttpConfig`
pub record HttpConfig : Type 0 where
  pub crt_file : String
  pub private_file : String
  pub thread_pool : ℤ
  pub tls_enabled : ℤ
  pub port : ℤ
  pub remote_server : String
  pub upload_user : ℤ

-- The numbers, and the address between them.
unfoldable pub read_numbers : Tree → HttpConfig → Outcome (ℕ × HttpConfig)
read_numbers props c = reading 1 c (get_int props "thread_pool_size") λ threads.
    let c = record c { thread_pool = threads } in
    reading 1 c (get_int props "tls") λ tls.
      let c = record c { tls_enabled = tls } in
      reading 1 c (get_int props "port") λ port.
        let c = record c { port = port } in
        reading 1 c (get_string props "remote_server") λ server.
          let c = record c { remote_server = server } in
          reading 1 c (get_int props "upload_clients")
            λ users. ok (0, record c { upload_user = users })

-- `HttpConfig::read_config`: 1 at the first missing key, with what was read before it kept.
unfoldable pub read_config : Tree → HttpConfig → Outcome (ℕ × HttpConfig)
unfolding read_numbers
read_config props c = reading 1 c (get_string props "cert_file") λ crt.
    let c = record c { crt_file = crt } in
    reading 1 c (get_string props "private_file")
      λ key. read_numbers props (record c { private_file = key })

-- `HttpConfig::set_file`: `json` is what the file holds, `none` at the child "http" if there is no
-- such child.
unfoldable pub set_file : (String → Option Tree) → HttpConfig → Outcome (ℕ × HttpConfig)
unfolding read_config
set_file json c = elim (json "http") [ none ↦ ok (1, c) | some props ↦ read_config props c ]

-- Every field holds what the tree has at its key.
pub record IsRead (props : Tree) (c : HttpConfig) : Type 0 where
  pub crt_file : HasString props "cert_file" c.crt_file
  pub private_file : HasString props "private_file" c.private_file
  pub thread_pool : HasInt props "thread_pool_size" c.thread_pool
  pub tls_enabled : HasInt props "tls" c.tls_enabled
  pub port : HasInt props "port" c.port
  pub remote_server : HasString props "remote_server" c.remote_server
  pub upload_user : HasInt props "upload_clients" c.upload_user

one-ne-zero : ◌≡◌ {A = ℕ} 1 0 → ⊥
one-ne-zero h = omega (arith, h)

-- A reading that answers 0 has filled every field from the tree, whatever the object held before.
pub read_config-IsRead :
    (props : Tree) (c d : HttpConfig) → read_config props c ≡ ok (0, d) → IsRead props d
unfolding read_config
read_config-IsRead props c d h =
    let (crt, a₁, h₁) = reading-eq-ok 1 _ (get_string props "cert_file") _ one-ne-zero h in
    let (key, a₂, h₂) = reading-eq-ok 1 _ (get_string props "private_file") _ one-ne-zero h₁ in
    let (threads, a₃, h₃) = reading-eq-ok 1 _ (get_int props "thread_pool_size") _ one-ne-zero h₂ in
    let (tls, a₄, h₄) = reading-eq-ok 1 _ (get_int props "tls") _ one-ne-zero h₃ in
    let (port, a₅, h₅) = reading-eq-ok 1 _ (get_int props "port") _ one-ne-zero h₄ in
    let (server, a₆, h₆) = reading-eq-ok 1 _ (get_string props "remote_server") _ one-ne-zero h₅ in
    let (users, a₇, h₇) = reading-eq-ok 1 _ (get_int props "upload_clients") _ one-ne-zero h₆ in
    subst (IsRead props) (ap (λ r. r.1) (ok-injective h₇)) (record {
      crt_file = a₁;
      private_file = a₂;
      thread_pool = a₃;
      tls_enabled = a₄;
      port = a₅;
      remote_server = a₆;
      upload_user = a₇;
    })
