-- ===== src/SyscallArgs/Tables/X8664/From128.antt =====
-- scripts/syscall_args/syscall-tables/X86_64.py: the calls from 0x80 to 0xc9.
use gef_extras.Common.{[], ◌∷◌}
use gef_extras.SyscallArgs.{Table}
use gef_extras.SyscallArgs.Tables.{row, param}

abbrev pub from_128 : Table
from_128 =
    row 0x80 "rt_sigtimedwait" (
      param "$rdi" "const sigset_t *uthese"
      ∷ param "$rsi" "siginfo_t *uinfo"
      ∷ param "$rdx" "const struct timespec *uts"
      ∷ param "$r10" "size_t sigsetsize"
      ∷ [])
    ∷ row 0x81 "rt_sigqueueinfo"
        (param "$rdi" "pid_t pid" ∷ param "$rsi" "int sig" ∷ param "$rdx" "siginfo_t *uinfo" ∷ [])
    ∷ row 0x82 "rt_sigsuspend"
        (param "$rdi" "sigset_t *unewset" ∷ param "$rsi" "size_t sigsetsize" ∷ [])
    ∷ row 0x83 "sigaltstack" (param "$rdi" "const stack_t *uss" ∷ param "$rsi" "stack_t *uoss" ∷ [])
    ∷ row 0x84 "utime" (param "$rdi" "char *filename" ∷ param "$rsi" "struct utimbuf *times" ∷ [])
    ∷ row 0x85 "mknod" (
        param "$rdi" "const char *filename"
        ∷ param "$rsi" "umode_t mode"
        ∷ param "$rdx" "unsigned dev"
        ∷ [])
    ∷ row 0x87 "personality" (param "$rdi" "unsigned int personality" ∷ [])
    ∷ row 0x88 "ustat" (param "$rdi" "unsigned dev" ∷ param "$rsi" "struct ustat *ubuf" ∷ [])
    ∷ row 0x89 "statfs"
        (param "$rdi" "const char *pathname" ∷ param "$rsi" "struct statfs *buf" ∷ [])
    ∷ row 0x8a "fstatfs" (param "$rdi" "unsigned int fd" ∷ param "$rsi" "struct statfs *buf" ∷ [])
    ∷ row 0x8b "sysfs" (
        param "$rdi" "int option"
        ∷ param "$rsi" "unsigned long arg1"
        ∷ param "$rdx" "unsigned long arg2"
        ∷ [])
    ∷ row 0x8c "getpriority" (param "$rdi" "int which" ∷ param "$rsi" "int who" ∷ [])
    ∷ row 0x8d "setpriority"
        (param "$rdi" "int which" ∷ param "$rsi" "int who" ∷ param "$rdx" "int niceval" ∷ [])
    ∷ row 0x8e "sched_setparam"
        (param "$rdi" "pid_t pid" ∷ param "$rsi" "struct sched_param *param" ∷ [])
    ∷ row 0x8f "sched_getparam"
        (param "$rdi" "pid_t pid" ∷ param "$rsi" "struct sched_param *param" ∷ [])
    ∷ row 0x90 "sched_setscheduler" (
        param "$rdi" "pid_t pid"
        ∷ param "$rsi" "int policy"
        ∷ param "$rdx" "struct sched_param *param"
        ∷ [])
    ∷ row 0x91 "sched_getscheduler" (param "$rdi" "pid_t pid" ∷ [])
    ∷ row 0x92 "sched_get_priority_max" (param "$rdi" "int policy" ∷ [])
    ∷ row 0x93 "sched_get_priority_min" (param "$rdi" "int policy" ∷ [])
    ∷ row 0x94 "sched_rr_get_interval"
        (param "$rdi" "pid_t pid" ∷ param "$rsi" "struct timespec *interval" ∷ [])
    ∷ row 0x95 "mlock" (param "$rdi" "unsigned long start" ∷ param "$rsi" "size_t len" ∷ [])
    ∷ row 0x96 "munlock" (param "$rdi" "unsigned long start" ∷ param "$rsi" "size_t len" ∷ [])
    ∷ row 0x97 "mlockall" (param "$rdi" "int flags" ∷ [])
    ∷ row 0x98 "munlockall" ([])
    ∷ row 0x99 "vhangup" ([])
    ∷ row 0x9a "modify_ldt" (
        param "$rdi" "int func"
        ∷ param "$rsi" "void *ptr"
        ∷ param "$rdx" "unsigned long bytecount"
        ∷ [])
    ∷ row 0x9b "pivot_root"
        (param "$rdi" "const char *new_root" ∷ param "$rsi" "const char *put_old" ∷ [])
    ∷ row 0x9c "_sysctl" (param "$rdi" "struct __sysctl_args *args" ∷ [])
    ∷ row 0x9d "prctl" (
        param "$rdi" "int option"
        ∷ param "$rsi" "unsigned long arg2"
        ∷ param "$rdx" "unsigned long arg3"
        ∷ param "$r10" "unsigned long arg4"
        ∷ param "$r8" "unsigned long arg5"
        ∷ [])
    ∷ row 0x9e "arch_prctl" (param "$rdi" "int code" ∷ param "$rsi" "unsigned long addr" ∷ [])
    ∷ row 0x9f "adjtimex" (param "$rdi" "struct timex *txc_p" ∷ [])
    ∷ row 0xa0 "setrlimit"
        (param "$rdi" "unsigned int resource" ∷ param "$rsi" "struct rlimit *rlim" ∷ [])
    ∷ row 0xa1 "chroot" (param "$rdi" "const char *filename" ∷ [])
    ∷ row 0xa2 "sync" ([])
    ∷ row 0xa3 "acct" (param "$rdi" "const char *name" ∷ [])
    ∷ row 0xa4 "settimeofday"
        (param "$rdi" "struct timeval *tv" ∷ param "$rsi" "struct timezone *tz" ∷ [])
    ∷ row 0xa5 "mount" (
        param "$rdi" "char *dev_name"
        ∷ param "$rsi" "char *dir_name"
        ∷ param "$rdx" "char *type"
        ∷ param "$r10" "unsigned long flags"
        ∷ param "$r8" "void *data"
        ∷ [])
    ∷ row 0xa6 "umount2" (param "$rdi" "char *name" ∷ param "$rsi" "int flags" ∷ [])
    ∷ row 0xa7 "swapon"
        (param "$rdi" "const char *specialfile" ∷ param "$rsi" "int swap_flags" ∷ [])
    ∷ row 0xa8 "swapoff" (param "$rdi" "const char *specialfile" ∷ [])
    ∷ row 0xa9 "reboot" (
        param "$rdi" "int magic1"
        ∷ param "$rsi" "int magic2"
        ∷ param "$rdx" "unsigned int cmd"
        ∷ param "$r10" "void *arg"
        ∷ [])
    ∷ row 0xaa "sethostname" (param "$rdi" "char *name" ∷ param "$rsi" "int len" ∷ [])
    ∷ row 0xab "setdomainname" (param "$rdi" "char *name" ∷ param "$rsi" "int len" ∷ [])
    ∷ row 0xac "iopl" (param "$rdi" "unsigned int level" ∷ [])
    ∷ row 0xad "ioperm" (
        param "$rdi" "unsigned long from"
        ∷ param "$rsi" "unsigned long num"
        ∷ param "$rdx" "int turn_on"
        ∷ [])
    ∷ row 0xaf "init_module" (
        param "$rdi" "void *umod"
        ∷ param "$rsi" "unsigned long len"
        ∷ param "$rdx" "const char *uargs"
        ∷ [])
    ∷ row 0xb0 "delete_module"
        (param "$rdi" "const char *name_user" ∷ param "$rsi" "unsigned int flags" ∷ [])
    ∷ row 0xb3 "quotactl" (
        param "$rdi" "unsigned int cmd"
        ∷ param "$rsi" "const char *special"
        ∷ param "$rdx" "qid_t id"
        ∷ param "$r10" "void *addr"
        ∷ [])
    ∷ row 0xba "gettid" ([])
    ∷ row 0xbb "readahead" (param "$rdi" "loff_t offset size_t count" ∷ [])
    ∷ row 0xbc "setxattr" (
        param "$rdi" "const char *pathname"
        ∷ param "$rsi" "const char *name"
        ∷ param "$rdx" "const void *value"
        ∷ param "$r10" "size_t size"
        ∷ param "$r8" "int flags"
        ∷ [])
    ∷ row 0xbd "lsetxattr" (
        param "$rdi" "const char *pathname"
        ∷ param "$rsi" "const char *name"
        ∷ param "$rdx" "const void *value"
        ∷ param "$r10" "size_t size"
        ∷ param "$r8" "int flags"
        ∷ [])
    ∷ row 0xbe "fsetxattr" (
        param "$rdi" "int fd"
        ∷ param "$rsi" "const char *name"
        ∷ param "$rdx" "const void *value"
        ∷ param "$r10" "size_t size"
        ∷ param "$r8" "int flags"
        ∷ [])
    ∷ row 0xbf "getxattr" (
        param "$rdi" "const char *pathname"
        ∷ param "$rsi" "const char *name"
        ∷ param "$rdx" "void *value"
        ∷ param "$r10" "size_t size"
        ∷ [])
    ∷ row 0xc0 "lgetxattr" (
        param "$rdi" "const char *pathname"
        ∷ param "$rsi" "const char *name"
        ∷ param "$rdx" "void *value"
        ∷ param "$r10" "size_t size"
        ∷ [])
    ∷ row 0xc1 "fgetxattr" (
        param "$rdi" "int fd"
        ∷ param "$rsi" "const char *name"
        ∷ param "$rdx" "void *value"
        ∷ param "$r10" "size_t size"
        ∷ [])
    ∷ row 0xc2 "listxattr" (
        param "$rdi" "const char *pathname"
        ∷ param "$rsi" "char *list"
        ∷ param "$rdx" "size_t size"
        ∷ [])
    ∷ row 0xc3 "llistxattr" (
        param "$rdi" "const char *pathname"
        ∷ param "$rsi" "char *list"
        ∷ param "$rdx" "size_t size"
        ∷ [])
    ∷ row 0xc4 "flistxattr"
        (param "$rdi" "int fd" ∷ param "$rsi" "char *list" ∷ param "$rdx" "size_t size" ∷ [])
    ∷ row 0xc5 "removexattr"
        (param "$rdi" "const char *pathname" ∷ param "$rsi" "const char *name" ∷ [])
    ∷ row 0xc6 "lremovexattr"
        (param "$rdi" "const char *pathname" ∷ param "$rsi" "const char *name" ∷ [])
    ∷ row 0xc7 "fremovexattr" (param "$rdi" "int fd" ∷ param "$rsi" "const char *name" ∷ [])
    ∷ row 0xc8 "tkill" (param "$rdi" "pid_t pid" ∷ param "$rsi" "int sig" ∷ [])
    ∷ row 0xc9 "time" (param "$rdi" "time_t *tloc" ∷ [])
    ∷ []
