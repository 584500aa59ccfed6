-- ===== src/Key/Laws.antt =====
-- Hashes of keys, and the key that a session gives.
use mathlib.Core.Path.{fun_ext}
use libssh_ruby.Base.{ℕ, suc, ◌≡◌, ◌≢◌, Bytes, Option, none, some, arith}
use libssh_ruby.Value.{Value, object, string, Result, ok, fault}
use libssh_ruby.Libssh.{
  Handle, Platform, ssh_get_publickey_hash, ssh_clean_pubkey_hash, ssh_get_publickey,
}
use libssh_ruby.Runtime.{Holder, Heap, World, key, session, update}
use libssh_ruby.Runtime.Trace.{reply, after}
use libssh_ruby.Error.Outcome.{outcome}
use libssh_ruby.Key.{m_sha1}
use libssh_ruby.Session.Connection.{m_get_publickey}

-- What `sha1` comes to, by what libssh wrote to the hash variable: its bytes, which are given
-- back to libssh, or the use of a variable that was never set.
abbrev pub hash_result :
    (P : Platform) → Option Bytes → World P.State → Result Value × World P.State
hash_result P none w = (fault, w)
hash_result P (some hash) w = (ok (string hash), after P (ssh_clean_pubkey_hash hash) w)

-- `sha1` returns the hash and gives it back to libssh if libssh wrote one. If libssh wrote none,
-- as on an error, `sha1` reads variables that were never set, whatever the return code is.
pub sha1_lem :
    (P : Platform) (a : ℕ) (k : Handle) (w : World P.State)
    → w.heap a ≡ some (key k)
    → let c = ssh_get_publickey_hash k in
      m_sha1 P (object a) w ≡ hash_result P (reply P c w).1 (after P c w)
unfolding m_sha1
sha1_lem P a k w here = ground arith

update-update : (f : Heap) (a : ℕ) (g h : Option Holder) → update (update f a g) a h ≡ update f a h
update-update f a g h = fun_ext λ b. ground arith

-- `get_publickey` makes a new key object that holds the key that libssh gives, and returns it
-- unless libssh answers SSH_ERROR, which is raised as the error of the session.
pub get_publickey_lem :
    (P : Platform) (a : ℕ) (s : Handle) (w : World P.State)
    → w.heap a ≡ some (session s)
    → a ≢ w.next
    → let c = ssh_get_publickey s in
      m_get_publickey P (object a) w
      ≡ outcome P s (reply P c w).0 (object w.next) (record (after P c w) {
        heap = update w.heap w.next (some (key (reply P c w).1));
        next = suc w.next;
      })
unfolding m_get_publickey
get_publickey_lem P a s w here old =
    rw
      (← update-update w.heap w.next (some (key none))
        (some (key (reply P (ssh_get_publickey s) w).1)))
      (ground arith)
