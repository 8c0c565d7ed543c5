-- ===== src/Lib.antt =====
-- A verification library for SAMFSCON, a web console for Samba file servers.
--
-- The console signs administrators in, keeps a session with a worker thread for each of them, and
-- reads and changes shares, options and permissions of a server over RPC and SMB. The library models
-- the parts of backend/samfscon that decide something by themselves:
--
--   Prelude       Python's str (a list of code points), dict (a list of entries in insertion order),
--                 int() and formatting, with the lemmas that the parts share
--   Core          core/ratelimit.py (RateLimiter), core/cache.py (TtlCache), the registry of
--                 workers of core/executor.py (Executor) and core/findings.py (Findings): the rules
--                 that judge what was read of a server; core/errors.py (Errors)
--   Auth          auth/session.py: LoginThrottle (Throttle), and SessionSecret, Session and
--                 SessionStore (Store); the end of a session closes its worker in Core.Executor;
--                 auth/krb5conf.py (Krb5): the file of the Kerberos library
--   Srv           srv/shareconf.py (ShareConf), srv/globalconf.py (GlobalConf), which normalises its
--                 values by ShareConf.Value, srv/acl.py (Acl), srv/files.py (Files),
--                 srv/access.py (Access) and srv/registry.py (Registry)
--
-- A class is a record, a method a function from the record to its result and the record after it,
-- under the name of the method. What a method raises is a constructor of a result type, with the
-- code of the error and the parts of its context that are computed; messages, hints and log lines
-- are left out. Locks make each method one step. A clock is an argument at each call of it, in
-- microseconds, and a difference of times stops at 0. Every loop is a recursion on the list or the
-- text it runs over; the digits of a number are produced on fuel that is one more than the number,
-- which is enough since each step divides it. The walk over the values of a registry key is a
-- recursion on the number of the indices that the source tries, 4097.
--
-- Case mapping and digits are those of ASCII, and the limit of CPython on the digits of an integer
-- is not modelled. A mask is a natural number of any size, as in Python. Where a session ends, what
-- happens outside the process (the ticket cache is removed, the thread is stopped) is an event in a
-- list, so that its order can be stated; a buffer of a secret has an address, so that the clearing is
-- seen by whoever holds the session. The module ipaddress, the SDDL parser of Samba and the calls that
-- store a value or open a handle are parameters; what is read of the server is an argument.
--
-- Not modelled: the Samba bindings and winreg themselves, the HTTP routes, the acquisition of tickets,
-- settings, start-up, and of the modelled files what only gathers data from a server.
pub mod Prelude
pub mod Core
pub mod Auth
pub mod Srv
