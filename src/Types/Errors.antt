-- ===== src/Types/Errors.antt =====
-- include/swatcher_types.h: `swatcher_error`; src/core/error.c: the thread's last error and the error
-- messages.
use Prim.Native.String.{String}
use swatcher.Base.{ℕ}

pub data Error : Type 0 where
  no_error null_arg alloc invalid_path path_not_found backend_init backend_not_found thread : Error
  mutex not_initialized target_exists target_not_found pattern_compile watch_limit unknown : Error

-- The number of the enumeration.
unfoldable pub error_code : Error → ℕ
error_code Error.no_error = 0
error_code Error.null_arg = 1
error_code Error.alloc = 2
error_code Error.invalid_path = 3
error_code Error.path_not_found = 4
error_code Error.backend_init = 5
error_code Error.backend_not_found = 6
error_code Error.thread = 7
error_code Error.mutex = 8
error_code Error.not_initialized = 9
error_code Error.target_exists = 10
error_code Error.target_not_found = 11
error_code Error.pattern_compile = 12
error_code Error.watch_limit = 13
error_code Error.unknown = 14

-- `swatcher_error_string` on the values of the enumeration
unfoldable pub swatcher_error_string : Error → String
swatcher_error_string Error.no_error = "No error"
swatcher_error_string Error.null_arg = "NULL argument"
swatcher_error_string Error.alloc = "Memory allocation failed"
swatcher_error_string Error.invalid_path = "Invalid path"
swatcher_error_string Error.path_not_found = "Path not found"
swatcher_error_string Error.backend_init = "Backend initialization failed"
swatcher_error_string Error.backend_not_found = "Backend not found"
swatcher_error_string Error.thread = "Thread creation failed"
swatcher_error_string Error.mutex = "Mutex creation failed"
swatcher_error_string Error.not_initialized = "Watcher not initialized"
swatcher_error_string Error.target_exists = "Target already watched"
swatcher_error_string Error.target_not_found = "Target not found"
swatcher_error_string Error.pattern_compile = "Pattern compilation failed"
swatcher_error_string Error.watch_limit = "Watch limit exceeded"
swatcher_error_string Error.unknown = "Unknown error"

-- `sw_set_error`: the new value of the thread's `sw_last_error`
unfoldable pub sw_set_error : Error → Error → Error
sw_set_error err sw_last_error = err

-- `swatcher_last_error`: the value returned, and the one left behind
unfoldable pub swatcher_last_error : Error → Error × Error
swatcher_last_error sw_last_error = (sw_last_error, Error.no_error)
