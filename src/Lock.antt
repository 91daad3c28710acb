-- ===== src/Lock.antt =====
-- src/lock.h: a reader-writer lock, seen by the calls that try it. A blocking call that would wait
-- for ever is `none`.
use libnvmmio.Prelude.{ℕ, zero, suc, Option, none, some, ◌≡◌, arith}

-- `held k` is held by `k` readers, `writing` by one writer.
pub data RwLock : Type 0 where
  held : ℕ → RwLock
  writing : RwLock

abbrev pub unlocked : RwLock
unlocked = held 0

-- `pthread_rwlock_tryrdlock`
unfoldable pub read_trylock : RwLock → Option RwLock
read_trylock (held k) = some (held (suc k))
read_trylock writing = none

-- `pthread_rwlock_trywrlock`
unfoldable pub write_trylock : RwLock → Option RwLock
write_trylock (held zero) = some writing
write_trylock (held (suc k)) = none
write_trylock writing = none

-- `pthread_rwlock_unlock`
unfoldable pub unlock : RwLock → RwLock
unlock (held zero) = held zero
unlock (held (suc k)) = held k
unlock writing = held zero

pub unlock-read_trylock : {l l' : RwLock} → read_trylock l ≡ some l' → unlock l' ≡ l
unfolding read_trylock unlock
unlock-read_trylock {l = held k} h = ground arith
unlock-read_trylock {l = writing} h = cc

pub unlock-write_trylock : {l l' : RwLock} → write_trylock l ≡ some l' → unlock l' ≡ l
unfolding write_trylock unlock
unlock-write_trylock {l = held zero} h = ground arith
unlock-write_trylock {l = held (suc k)} h = cc
unlock-write_trylock {l = writing} h = cc
