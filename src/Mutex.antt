-- ===== src/Mutex.antt =====
-- src/include/atscppapi/Mutex.h: the mutex, and the locks that hold one for a scope. A shared pointer
-- to a mutex names the same mutex as a reference, so that the two scoped locks of each kind are one
-- definition each.
pub mod Scopes
use atscppapi.Common.{ℕ, Bool, true, false, ◌==◌, if◌then◌else◌}

-- Mutex::Type
pub data MutexType : Type 0 where
  type_normal type_recursive type_error_check : MutexType

-- The kinds of pthread mutexes that the constructor asks for.
pub data PthreadType : Type 0 where
  pthread_mutex_normal pthread_mutex_recursive pthread_mutex_errorcheck : PthreadType

-- The functions of pthread.h, as the calling thread sees them when they return: the result, which is
-- 0 for success, and the world. A mutex is known by its address.
pub record PthreadApi : Type 1 where
  pub World : Type 0
  -- the address, with the attribute of the type set
  pub mutex_init : World → PthreadType → ℕ × World
  pub mutex_destroy : World → ℕ → World
  pub mutex_trylock : World → ℕ → ℕ × World
  pub mutex_lock : World → ℕ → ℕ × World
  pub mutex_unlock : World → ℕ → ℕ × World

-- The switch in the constructor.
unfoldable pub pthread_type : MutexType → PthreadType
pthread_type type_recursive = pthread_mutex_recursive
pthread_type type_error_check = pthread_mutex_errorcheck
pthread_type type_normal = pthread_mutex_normal

module _ (ts : PthreadApi) where
  -- Mutex(Type): the mutex, by its address, and the world
  unfoldable pub new : MutexType → ts.World → ℕ × ts.World
  unfolding pthread_type
  new type w = ts.mutex_init w (pthread_type type)

  -- ~Mutex
  unfoldable pub delete : ℕ → ts.World → ts.World
  delete mutex w = ts.mutex_destroy w mutex

  unfoldable pub try_lock : ℕ → ts.World → Bool × ts.World
  try_lock mutex w = let (result, w') = ts.mutex_trylock w mutex in (result == 0, w')

  -- The results of these two are not looked at.
  unfoldable pub lock : ℕ → ts.World → ts.World
  lock mutex w = (ts.mutex_lock w mutex).1

  unfoldable pub unlock : ℕ → ts.World → ts.World
  unlock mutex w = (ts.mutex_unlock w mutex).1

-- ScopedMutexLock and ScopedSharedMutexLock.
pub record ScopedMutexLock : Type 0 where
  pub mutex : ℕ

-- ScopedMutexTryLock and ScopedSharedMutexTryLock; the getter hasLock is the field.
pub record ScopedMutexTryLock : Type 0 where
  pub mutex : ℕ
  pub has_lock : Bool

module _ (ts : PthreadApi) where
  unfoldable pub new_lock : ℕ → ts.World → ScopedMutexLock × ts.World
  unfolding lock
  new_lock mutex w = (record { mutex = mutex }, lock ts mutex w)

  unfoldable pub delete_lock : ScopedMutexLock → ts.World → ts.World
  unfolding unlock
  delete_lock l w = unlock ts l.mutex w

  unfoldable pub new_try_lock : ℕ → ts.World → ScopedMutexTryLock × ts.World
  unfolding try_lock
  new_try_lock mutex w =
      let (has_lock, w') = try_lock ts mutex w in
      (record { mutex = mutex; has_lock = has_lock }, w')

  unfoldable pub delete_try_lock : ScopedMutexTryLock → ts.World → ts.World
  unfolding unlock
  delete_try_lock l w = if l.has_lock then unlock ts l.mutex w else w
