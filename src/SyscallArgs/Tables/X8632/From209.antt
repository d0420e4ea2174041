-- ===== src/SyscallArgs/Tables/X8632/From209.antt =====
-- scripts/syscall_args/syscall-tables/X86.py: the calls from 0xd1 to 0x114.
use gef_extras.Common.{[], ◌∷◌}
use gef_extras.SyscallArgs.{Table}
use gef_extras.SyscallArgs.Tables.{row, param}

abbrev pub from_209 : Table
from_209 =
    row 0xd1 "getresuid32"
      (param "$ebx" "uid_t *ruidp" ∷ param "$ecx" "uid_t *euidp" ∷ param "$edx" "uid_t *suidp" ∷ [])
    ∷ row 0xd2 "setresgid32"
        (param "$ebx" "gid_t rgid" ∷ param "$ecx" "gid_t egid" ∷ param "$edx" "gid_t sgid" ∷ [])
    ∷ row 0xd3 "getresgid32" (
        param "$ebx" "gid_t *rgidp"
        ∷ param "$ecx" "gid_t *egidp"
        ∷ param "$edx" "gid_t *sgidp"
        ∷ [])
    ∷ row 0xd4 "chown32" (
        param "$ebx" "const char *filename"
        ∷ param "$ecx" "uid_t user"
        ∷ param "$edx" "gid_t group"
        ∷ [])
    ∷ row 0xd5 "setuid32" (param "$ebx" "uid_t uid" ∷ [])
    ∷ row 0xd6 "setgid32" (param "$ebx" "gid_t gid" ∷ [])
    ∷ row 0xd7 "setfsuid32" (param "$ebx" "uid_t uid" ∷ [])
    ∷ row 0xd8 "setfsgid32" (param "$ebx" "gid_t gid" ∷ [])
    ∷ row 0xd9 "pivot_root"
        (param "$ebx" "const char *new_root" ∷ param "$ecx" "const char *put_old" ∷ [])
    ∷ row 0xda "mincore" (
        param "$ebx" "unsigned long start"
        ∷ param "$ecx" "size_t len"
        ∷ param "$edx" "unsigned char *vec"
        ∷ [])
    ∷ row 0xdb "madvise" (
        param "$ebx" "unsigned long start"
        ∷ param "$ecx" "size_t len_in"
        ∷ param "$edx" "int behavior"
        ∷ [])
    ∷ row 0xdc "getdents64" (
        param "$ebx" "unsigned int fd"
        ∷ param "$ecx" "struct linux_dirent64 *dirent"
        ∷ param "$edx" "unsigned int count"
        ∷ [])
    ∷ row 0xdd "fcntl64" (
        param "$ebx" "unsigned int fd"
        ∷ param "$ecx" "unsigned int cmd"
        ∷ param "$edx" "unsigned long arg"
        ∷ [])
    ∷ row 0xe0 "gettid" ([])
    ∷ row 0xe1 "readahead" (param "$ebx" "loff_t offset size_t count" ∷ [])
    ∷ row 0xe2 "setxattr" (
        param "$ebx" "const char *pathname"
        ∷ param "$ecx" "const char *name"
        ∷ param "$edx" "const void *value"
        ∷ param "$esi" "size_t size"
        ∷ param "$edi" "int flags"
        ∷ [])
    ∷ row 0xe3 "lsetxattr" (
        param "$ebx" "const char *pathname"
        ∷ param "$ecx" "const char *name"
        ∷ param "$edx" "const void *value"
        ∷ param "$esi" "size_t size"
        ∷ param "$edi" "int flags"
        ∷ [])
    ∷ row 0xe4 "fsetxattr" (
        param "$ebx" "int fd"
        ∷ param "$ecx" "const char *name"
        ∷ param "$edx" "const void *value"
        ∷ param "$esi" "size_t size"
        ∷ param "$edi" "int flags"
        ∷ [])
    ∷ row 0xe5 "getxattr" (
        param "$ebx" "const char *pathname"
        ∷ param "$ecx" "const char *name"
        ∷ param "$edx" "void *value"
        ∷ param "$esi" "size_t size"
        ∷ [])
    ∷ row 0xe6 "lgetxattr" (
        param "$ebx" "const char *pathname"
        ∷ param "$ecx" "const char *name"
        ∷ param "$edx" "void *value"
        ∷ param "$esi" "size_t size"
        ∷ [])
    ∷ row 0xe7 "fgetxattr" (
        param "$ebx" "int fd"
        ∷ param "$ecx" "const char *name"
        ∷ param "$edx" "void *value"
        ∷ param "$esi" "size_t size"
        ∷ [])
    ∷ row 0xe8 "listxattr" (
        param "$ebx" "const char *pathname"
        ∷ param "$ecx" "char *list"
        ∷ param "$edx" "size_t size"
        ∷ [])
    ∷ row 0xe9 "llistxattr" (
        param "$ebx" "const char *pathname"
        ∷ param "$ecx" "char *list"
        ∷ param "$edx" "size_t size"
        ∷ [])
    ∷ row 0xea "flistxattr"
        (param "$ebx" "int fd" ∷ param "$ecx" "char *list" ∷ param "$edx" "size_t size" ∷ [])
    ∷ row 0xeb "removexattr"
        (param "$ebx" "const char *pathname" ∷ param "$ecx" "const char *name" ∷ [])
    ∷ row 0xec "lremovexattr"
        (param "$ebx" "const char *pathname" ∷ param "$ecx" "const char *name" ∷ [])
    ∷ row 0xed "fremovexattr" (param "$ebx" "int fd" ∷ param "$ecx" "const char *name" ∷ [])
    ∷ row 0xee "tkill" (param "$ebx" "pid_t pid" ∷ param "$ecx" "int sig" ∷ [])
    ∷ row 0xef "sendfile64" (
        param "$ebx" "int out_fd"
        ∷ param "$ecx" "int in_fd"
        ∷ param "$edx" "loff_t *offset"
        ∷ param "$esi" "size_t count"
        ∷ [])
    ∷ row 0xf0 "futex" (
        param "$ebx" "u32 *uaddr"
        ∷ param "$ecx" "int op"
        ∷ param "$edx" "u32 val"
        ∷ param "$esi" "struct timespec *utime"
        ∷ param "$edi" "u32 *uaddr2"
        ∷ param "$ebp" "u32 val3"
        ∷ [])
    ∷ row 0xf1 "sched_setaffinity" (
        param "$ebx" "pid_t pid"
        ∷ param "$ecx" "unsigned int len"
        ∷ param "$edx" "unsigned long *user_mask_ptr"
        ∷ [])
    ∷ row 0xf2 "sched_getaffinity" (
        param "$ebx" "pid_t pid"
        ∷ param "$ecx" "unsigned int len"
        ∷ param "$edx" "unsigned long *user_mask_ptr"
        ∷ [])
    ∷ row 0xf3 "set_thread_area" (param "$ebx" "struct user_desc *u_info" ∷ [])
    ∷ row 0xf4 "get_thread_area" (param "$ebx" "struct user_desc *u_info" ∷ [])
    ∷ row 0xf5 "io_setup"
        (param "$ebx" "unsigned nr_events" ∷ param "$ecx" "aio_context_t *ctxp" ∷ [])
    ∷ row 0xf6 "io_destroy" (param "$ebx" "aio_context_t ctx" ∷ [])
    ∷ row 0xf7 "io_getevents" (
        param "$ebx" "aio_context_t ctx_id"
        ∷ param "$ecx" "long min_nr"
        ∷ param "$edx" "long nr"
        ∷ param "$esi" "struct io_event *events"
        ∷ param "$edi" "struct timespec *timeout"
        ∷ [])
    ∷ row 0xf8 "io_submit" (
        param "$ebx" "aio_context_t ctx_id"
        ∷ param "$ecx" "long nr"
        ∷ param "$edx" "struct iocb * *iocbpp"
        ∷ [])
    ∷ row 0xf9 "io_cancel" (
        param "$ebx" "aio_context_t ctx_id"
        ∷ param "$ecx" "struct iocb *iocb"
        ∷ param "$edx" "struct io_event *result"
        ∷ [])
    ∷ row 0xfa "fadvise64"
        (param "$ebx" "loff_t offset size_t len" ∷ param "$ecx" "int advice" ∷ [])
    ∷ row 0xfc "exit_group" (param "$ebx" "int error_code" ∷ [])
    ∷ row 0xfd "lookup_dcookie" (param "$ebx" "char *buf size_t len" ∷ [])
    ∷ row 0xfe "epoll_create" (param "$ebx" "int size" ∷ [])
    ∷ row 0xff "epoll_ctl" (
        param "$ebx" "int epfd"
        ∷ param "$ecx" "int op"
        ∷ param "$edx" "int fd"
        ∷ param "$esi" "struct epoll_event *event"
        ∷ [])
    ∷ row 0x100 "epoll_wait" (
        param "$ebx" "int epfd"
        ∷ param "$ecx" "struct epoll_event *events"
        ∷ param "$edx" "int maxevents"
        ∷ param "$esi" "int timeout"
        ∷ [])
    ∷ row 0x101 "remap_file_pages" (
        param "$ebx" "unsigned long start"
        ∷ param "$ecx" "unsigned long size"
        ∷ param "$edx" "unsigned long prot"
        ∷ param "$esi" "unsigned long pgoff"
        ∷ param "$edi" "unsigned long flags"
        ∷ [])
    ∷ row 0x102 "set_tid_address" (param "$ebx" "int *tidptr" ∷ [])
    ∷ row 0x103 "timer_create" (
        param "$ebx" "const clockid_t which_clock"
        ∷ param "$ecx" "struct sigevent *timer_event_spec"
        ∷ param "$edx" "timer_t *created_timer_id"
        ∷ [])
    ∷ row 0x104 "timer_settime" (
        param "$ebx" "timer_t timer_id"
        ∷ param "$ecx" "int flags"
        ∷ param "$edx" "const struct itimerspec *new_setting"
        ∷ param "$esi" "struct itimerspec *old_setting"
        ∷ [])
    ∷ row 0x105 "timer_gettime"
        (param "$ebx" "timer_t timer_id" ∷ param "$ecx" "struct itimerspec *setting" ∷ [])
    ∷ row 0x106 "timer_getoverrun" (param "$ebx" "timer_t timer_id" ∷ [])
    ∷ row 0x107 "timer_delete" (param "$ebx" "timer_t timer_id" ∷ [])
    ∷ row 0x108 "clock_settime"
        (param "$ebx" "const clockid_t which_clock" ∷ param "$ecx" "const struct timespec *tp" ∷ [])
    ∷ row 0x109 "clock_gettime"
        (param "$ebx" "const clockid_t which_clock" ∷ param "$ecx" "struct timespec *tp" ∷ [])
    ∷ row 0x10a "clock_getres"
        (param "$ebx" "const clockid_t which_clock" ∷ param "$ecx" "struct timespec *tp" ∷ [])
    ∷ row 0x10b "clock_nanosleep" (
        param "$ebx" "const clockid_t which_clock"
        ∷ param "$ecx" "int flags"
        ∷ param "$edx" "const struct timespec *rqtp"
        ∷ param "$esi" "struct timespec *rmtp"
        ∷ [])
    ∷ row 0x10c "statfs64" (
        param "$ebx" "const char *pathname"
        ∷ param "$ecx" "size_t sz"
        ∷ param "$edx" "struct statfs64 *buf"
        ∷ [])
    ∷ row 0x10d "fstatfs64" (
        param "$ebx" "unsigned int fd"
        ∷ param "$ecx" "size_t sz"
        ∷ param "$edx" "struct statfs64 *buf"
        ∷ [])
    ∷ row 0x10e "tgkill"
        (param "$ebx" "pid_t tgid" ∷ param "$ecx" "pid_t pid" ∷ param "$edx" "int sig" ∷ [])
    ∷ row 0x10f "utimes"
        (param "$ebx" "char *filename" ∷ param "$ecx" "struct timeval *utimes" ∷ [])
    ∷ row 0x110 "fadvise64_64"
        (param "$ebx" "loff_t offset loff_t len" ∷ param "$ecx" "int advice" ∷ [])
    ∷ row 0x112 "mbind" (
        param "$ebx" "unsigned long start"
        ∷ param "$ecx" "unsigned long len"
        ∷ param "$edx" "unsigned long mode"
        ∷ param "$esi" "unsigned long *nmask"
        ∷ param "$edi" "unsigned long maxnode"
        ∷ param "$ebp" "unsigned flags"
        ∷ [])
    ∷ row 0x113 "get_mempolicy" (
        param "$ebx" "int *policy"
        ∷ param "$ecx" "unsigned long *nmask"
        ∷ param "$edx" "unsigned long maxnode"
        ∷ param "$esi" "unsigned long addr"
        ∷ param "$edi" "unsigned long flags"
        ∷ [])
    ∷ row 0x114 "set_mempolicy" (
        param "$ebx" "int mode"
        ∷ param "$ecx" "unsigned long *nmask"
        ∷ param "$edx" "unsigned long maxnode"
        ∷ [])
    ∷ []
