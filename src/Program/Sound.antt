-- ===== src/Program/Sound.antt =====
-- Calls of programs do not fault.
use libssh_ruby.Value.{Value}
