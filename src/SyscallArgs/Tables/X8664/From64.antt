-- ===== src/SyscallArgs/Tables/X8664/From64.antt =====
-- scripts/syscall_args/syscall-tables/X86_64.py: the calls from 0x40 to 0x7f.
use gef_extras.Common.{[], ◌∷◌}
use gef_extras.SyscallArgs.{Table}
use gef_extras.SyscallArgs.Tables.{row, param}

abbrev pub from_64 : Table
from_64 =
    row 0x40 "semget"
      (param "$rdi" "key_t key" ∷ param "$rsi" "int nsems" ∷ param "$rdx" "int semflg" ∷ [])
    ∷ row 0x41 "semop" (
        param "$rdi" "int semid"
        ∷ param "$rsi" "struct sembuf *tsops"
        ∷ param "$rdx" "unsigned nsops"
        ∷ [])
    ∷ row 0x42 "semctl" (param "$rdi" "int semnum int cmd" ∷ param "$rsi" "union semun arg" ∷ [])
    ∷ row 0x43 "shmdt" (param "$rdi" "char *shmaddr" ∷ [])
    ∷ row 0x44 "msgget" (param "$rdi" "key_t key" ∷ param "$rsi" "int msgflg" ∷ [])
    ∷ row 0x45 "msgsnd" (
        param "$rdi" "int msqid"
        ∷ param "$rsi" "struct msgbuf *msgp"
        ∷ param "$rdx" "size_t msgsz"
        ∷ param "$r10" "int msgflg"
        ∷ [])
    ∷ row 0x46 "msgrcv" (
        param "$rdi" "int msqid"
        ∷ param "$rsi" "struct msgbuf *msgp"
        ∷ param "$rdx" "size_t msgsz"
        ∷ param "$r10" "long msgtyp"
        ∷ param "$r8" "int msgflg"
        ∷ [])
    ∷ row 0x47 "msgctl" (
        param "$rdi" "int msqid"
        ∷ param "$rsi" "int cmd"
        ∷ param "$rdx" "struct msqid_ds *buf"
        ∷ [])
    ∷ row 0x48 "fcntl" (
        param "$rdi" "unsigned int fd"
        ∷ param "$rsi" "unsigned int cmd"
        ∷ param "$rdx" "unsigned long arg"
        ∷ [])
    ∷ row 0x49 "flock" (param "$rdi" "unsigned int fd" ∷ param "$rsi" "unsigned int cmd" ∷ [])
    ∷ row 0x4a "fsync" (param "$rdi" "unsigned int fd" ∷ [])
    ∷ row 0x4b "fdatasync" (param "$rdi" "unsigned int fd" ∷ [])
    ∷ row 0x4c "truncate" (param "$rdi" "const char *path" ∷ param "$rsi" "long length" ∷ [])
    ∷ row 0x4d "ftruncate"
        (param "$rdi" "unsigned int fd" ∷ param "$rsi" "unsigned long length" ∷ [])
    ∷ row 0x4e "getdents" (
        param "$rdi" "unsigned int fd"
        ∷ param "$rsi" "struct linux_dirent *dirent"
        ∷ param "$rdx" "unsigned int count"
        ∷ [])
    ∷ row 0x4f "getcwd" (param "$rdi" "char *buf" ∷ param "$rsi" "unsigned long size" ∷ [])
    ∷ row 0x50 "chdir" (param "$rdi" "const char *filename" ∷ [])
    ∷ row 0x51 "fchdir" (param "$rdi" "unsigned int fd" ∷ [])
    ∷ row 0x52 "rename"
        (param "$rdi" "const char *oldname" ∷ param "$rsi" "const char *newname" ∷ [])
    ∷ row 0x53 "mkdir" (param "$rdi" "const char *pathname" ∷ param "$rsi" "umode_t mode" ∷ [])
    ∷ row 0x54 "rmdir" (param "$rdi" "const char *pathname" ∷ [])
    ∷ row 0x55 "creat" (param "$rdi" "const char *pathname" ∷ param "$rsi" "umode_t mode" ∷ [])
    ∷ row 0x56 "link" (param "$rdi" "const char *oldname" ∷ param "$rsi" "const char *newname" ∷ [])
    ∷ row 0x57 "unlink" (param "$rdi" "const char *pathname" ∷ [])
    ∷ row 0x58 "symlink"
        (param "$rdi" "const char *oldname" ∷ param "$rsi" "const char *newname" ∷ [])
    ∷ row 0x59 "readlink" (
        param "$rdi" "const char *path" ∷ param "$rsi" "char *buf" ∷ param "$rdx" "int bufsiz" ∷ [])
    ∷ row 0x5a "chmod" (param "$rdi" "const char *filename" ∷ param "$rsi" "umode_t mode" ∷ [])
    ∷ row 0x5b "fchmod" (param "$rdi" "unsigned int fd" ∷ param "$rsi" "umode_t mode" ∷ [])
    ∷ row 0x5c "chown" (
        param "$rdi" "const char *filename"
        ∷ param "$rsi" "uid_t user"
        ∷ param "$rdx" "gid_t group"
        ∷ [])
    ∷ row 0x5d "fchown" (
        param "$rdi" "unsigned int fd"
        ∷ param "$rsi" "uid_t user"
        ∷ param "$rdx" "gid_t group"
        ∷ [])
    ∷ row 0x5e "lchown" (
        param "$rdi" "const char *filename"
        ∷ param "$rsi" "uid_t user"
        ∷ param "$rdx" "gid_t group"
        ∷ [])
    ∷ row 0x5f "umask" (param "$rdi" "int mask" ∷ [])
    ∷ row 0x60 "gettimeofday"
        (param "$rdi" "struct timeval *tv" ∷ param "$rsi" "struct timezone *tz" ∷ [])
    ∷ row 0x61 "getrlimit"
        (param "$rdi" "unsigned int resource" ∷ param "$rsi" "struct rlimit *rlim" ∷ [])
    ∷ row 0x62 "getrusage" (param "$rdi" "int who" ∷ param "$rsi" "struct rusage *ru" ∷ [])
    ∷ row 0x63 "sysinfo" (param "$rdi" "struct sysinfo *info" ∷ [])
    ∷ row 0x64 "times" (param "$rdi" "struct tms *tbuf" ∷ [])
    ∷ row 0x65 "ptrace" (
        param "$rdi" "long request"
        ∷ param "$rsi" "long pid"
        ∷ param "$rdx" "unsigned long addr"
        ∷ param "$r10" "unsigned long data"
        ∷ [])
    ∷ row 0x66 "getuid" ([])
    ∷ row 0x67 "syslog"
        (param "$rdi" "int type" ∷ param "$rsi" "char *buf" ∷ param "$rdx" "int len" ∷ [])
    ∷ row 0x68 "getgid" ([])
    ∷ row 0x69 "setuid" (param "$rdi" "uid_t uid" ∷ [])
    ∷ row 0x6a "setgid" (param "$rdi" "gid_t gid" ∷ [])
    ∷ row 0x6b "geteuid" ([])
    ∷ row 0x6c "getegid" ([])
    ∷ row 0x6d "setpgid" (param "$rdi" "pid_t pid" ∷ param "$rsi" "pid_t pgid" ∷ [])
    ∷ row 0x6e "getppid" ([])
    ∷ row 0x6f "getpgrp" ([])
    ∷ row 0x70 "setsid" ([])
    ∷ row 0x71 "setreuid" (param "$rdi" "uid_t ruid" ∷ param "$rsi" "uid_t euid" ∷ [])
    ∷ row 0x72 "setregid" (param "$rdi" "gid_t rgid" ∷ param "$rsi" "gid_t egid" ∷ [])
    ∷ row 0x73 "getgroups" (param "$rdi" "int gidsetsize" ∷ param "$rsi" "gid_t *grouplist" ∷ [])
    ∷ row 0x74 "setgroups" (param "$rdi" "int gidsetsize" ∷ param "$rsi" "gid_t *grouplist" ∷ [])
    ∷ row 0x75 "setresuid"
        (param "$rdi" "uid_t ruid" ∷ param "$rsi" "uid_t euid" ∷ param "$rdx" "uid_t suid" ∷ [])
    ∷ row 0x76 "getresuid" (
        param "$rdi" "uid_t *ruidp"
        ∷ param "$rsi" "uid_t *euidp"
        ∷ param "$rdx" "uid_t *suidp"
        ∷ [])
    ∷ row 0x77 "setresgid"
        (param "$rdi" "gid_t rgid" ∷ param "$rsi" "gid_t egid" ∷ param "$rdx" "gid_t sgid" ∷ [])
    ∷ row 0x78 "getresgid" (
        param "$rdi" "gid_t *rgidp"
        ∷ param "$rsi" "gid_t *egidp"
        ∷ param "$rdx" "gid_t *sgidp"
        ∷ [])
    ∷ row 0x79 "getpgid" (param "$rdi" "pid_t pid" ∷ [])
    ∷ row 0x7a "setfsuid" (param "$rdi" "uid_t uid" ∷ [])
    ∷ row 0x7b "setfsgid" (param "$rdi" "gid_t gid" ∷ [])
    ∷ row 0x7c "getsid" (param "$rdi" "pid_t pid" ∷ [])
    ∷ row 0x7d "capget"
        (param "$rdi" "cap_user_header_t header" ∷ param "$rsi" "cap_user_data_t dataptr" ∷ [])
    ∷ row 0x7e "capset"
        (param "$rdi" "cap_user_header_t header" ∷ param "$rsi" "const cap_user_data_t data" ∷ [])
    ∷ row 0x7f "rt_sigpending"
        (param "$rdi" "sigset_t *set" ∷ param "$rsi" "size_t sigsetsize" ∷ [])
    ∷ []
